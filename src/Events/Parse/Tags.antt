-- ===== src/Events/Parse/Tags.antt =====
-- The loop over an event's tags in nostrJsonToPackedEvent of src/events_parse.cpp.
use strfry.Prelude.{
  ℕ, ◌≤◌, ◌<◌, ◌≡◌, refl, sym, ap, subst, ◌∙◌, ◌⊎◌, inl, inr, ◌&&◌, ◌||◌, none, some, List, [], ◌∷◌,
  ◌++◌, arith, leb, ◌==◌, if◌then◌else◌, Bool-cases, Option-cases, u64_mod, length, All, herr,
  Result, ok, err, ◌>>=◌, or_throw, >>=-eq-ok, Result-cases, >>=-elim,
}
use strfry.Prelude.Bytes.{Bytes, codes, bytes_eq}
use mathlib.Core.List.{append-nil, append_assoc}
use strfry.External.{Json, Hex}
use strfry.PackedEvent.{add}
use strfry.PackedEvent.Lemmas.{Tag, encode_tag, encode_tags, FitsTag}
use strfry.Filters.SetBytes.{max_indexed_tag_val_size}
use strfry.Events.Parse.{
  EventsConfig, stoull, parse_uint64, head_byte, tag_name_of, tag_val_of, add_fixed_tag,
  add_expiration, add_short_tag, add_named_tag, add_json_tag, add_json_tags,
}

pub encode_tags-append :
    (xs ys : List Tag) → encode_tags (xs ++ ys) ≡ encode_tags xs ++ encode_tags ys
unfolding encode_tags
encode_tags-append [] ys = refl
encode_tags-append (x ∷ xs) ys =
    ap (λ l. encode_tag x ++ l) (encode_tags-append xs ys)
    ∙ sym (append_assoc (encode_tag x) (encode_tags xs) (encode_tags ys))

pub All-append : (xs ys : List Tag) → All FitsTag xs → All FitsTag ys → All FitsTag (xs ++ ys)
All-append [] ys h k = k
All-append (x ∷ xs) ys h k = (h.0, All-append xs ys h.1 k)

-- A number that parseUint64 accepts has 64 bits.
parse_uint64-lt : (s : Bytes) (n : ℕ) → parse_uint64 s ≡ ok n → n < u64_mod
unfolding parse_uint64 stoull
parse_uint64-lt [] n h = ground arith
parse_uint64-lt (c ∷ s) n h = ground arith

-- The expiration after a tag: as before, or a fresh one of at least 100 in 64 bits.
abbrev pub NextExpiration : ℕ → ℕ → Type 0
NextExpiration e e' = (e' ≡ e) ⊎ ((100 ≤ e') × (e' < u64_mod))

abbrev pub or_empty : Result (List Tag) → List Tag
or_empty (ok l) = l
or_empty (err e) = []

module _ {V : Type 0} (json : Json V) (hex : Hex) where
  -- What a tag is indexed by, from its name and value.
  unfoldable pub entries_named : Bytes → Bytes → List Tag
  entries_named tag_name tag_val =
      if bytes_eq tag_name (codes "e") || bytes_eq tag_name (codes "p")
      then elim (hex.from_hex tag_val) [ none ↦ [] | some b ↦ (head_byte tag_name, b) ∷ [] ]
      else if bytes_eq tag_name (codes "expiration")
      then []
      else if (length tag_name == 1) && leb (length tag_val) max_indexed_tag_val_size
      then (head_byte tag_name, tag_val) ∷ []
      else []

  unfoldable pub read_entries : V → Result (List Tag)
  read_entries t = do
    tag ← or_throw (json.get_array t) (herr "tag in tags field was not an array")
    tag_name ← tag_name_of json hex tag
    tag_val ← tag_val_of json hex tag
    ok (entries_named tag_name tag_val)

  -- The entries of a JSON tag; none of a malformed one.
  unfoldable pub tag_entries : V → List Tag
  tag_entries t = or_empty (read_entries t)

  unfoldable pub all_entries : List V → List Tag
  all_entries [] = []
  all_entries (t ∷ ts) = tag_entries t ++ all_entries ts

  -- One more tag: its entries are appended, they fit, and the expiration is kept or set.
  abbrev Adds : Bytes × ℕ → List Tag → Bytes × ℕ → Type 0
  Adds (buf, e) entries (buf', e') =
      (buf' ≡ buf ++ encode_tags entries) × All FitsTag entries × NextExpiration e e'

  add_one :
      (buf buf' : Bytes) (k : ℕ) (v : Bytes)
      → add buf k v ≡ ok buf'
      → (buf' ≡ buf ++ encode_tags ((k, v) ∷ [])) × (length v ≤ 255)
  unfolding add encode_tags
  add_one buf buf' k v h = rw (append-nil (encode_tag (k, v))) (ground arith, ground arith)

  add_fixed_tag-Adds :
      (tag_name tag_val buf : Bytes) (e : ℕ) (st : Bytes × ℕ)
      → add_fixed_tag json hex tag_name tag_val (buf, e) ≡ ok st
      → (b : Bytes) × (hex.from_hex tag_val ≡ some b)
        × Adds (buf, e) ((head_byte tag_name, b) ∷ []) st
  unfolding add_fixed_tag
  add_fixed_tag-Adds tag_name tag_val buf e (buf', e') h =
      elim (Option-cases (hex.from_hex tag_val)) [
        | inl n ↦ absurd (ground arith)
        | inr (b, s) ↦ elim (Result-cases (add buf (head_byte tag_name) b)) [
          | inr (x, bad) ↦ absurd (ground arith)
          | inl (buf'', good) ↦
              let (enc, fits) = add_one buf buf'' (head_byte tag_name) b good in
              let same : (buf'' ≡ buf') × (e ≡ e') = ground arith in
              (b, s, (sym same.0 ∙ enc, (fits, tt), inl (sym same.1)))
        ]
      ]

  add_expiration-Adds :
      (tag_val buf : Bytes) (e : ℕ) (st : Bytes × ℕ)
      → add_expiration json hex tag_val (buf, e) ≡ ok st
      → Adds (buf, e) [] st
  unfolding add_expiration encode_tags
  add_expiration-Adds tag_val buf e (buf', e') h =
      rw (append-nil buf) (ground arith, tt, ground (arith, parse_uint64-lt tag_val e'))

  add_short_tag-Adds :
      (cfg : EventsConfig) (tag_name tag_val buf : Bytes) (e : ℕ) (st : Bytes × ℕ)
      → add_short_tag json hex cfg tag_name tag_val (buf, e) ≡ ok st
      → Adds
          (buf, e)
          (if leb (length tag_val) max_indexed_tag_val_size
            then (head_byte tag_name, tag_val) ∷ []
            else [])
          st
  unfolding add_short_tag
  add_short_tag-Adds cfg tag_name tag_val buf e (buf', e') h =
      elim (Bool-cases (leb (length tag_val) 255)) [
        | inr long ↦
            let same : (buf ≡ buf') × (e ≡ e') = ground arith in
            rw long (unfold encode_tags in rw (append-nil buf) (sym same.0, tt, inl (sym same.1)))
        | inl short ↦ elim (Result-cases (add buf (head_byte tag_name) tag_val)) [
          | inr (x, bad) ↦ absurd (ground arith)
          | inl (buf'', good) ↦
              let (enc, fits) = add_one buf buf'' (head_byte tag_name) tag_val good in
              let same : (buf'' ≡ buf') × (e ≡ e') = ground arith in
              rw short (sym same.0 ∙ enc, (fits, tt), inl (sym same.1))
        ]
      ]

  add_named_tag-Adds :
      (cfg : EventsConfig) (tag_name tag_val : Bytes) (st st' : Bytes × ℕ)
      → add_named_tag json hex cfg tag_name tag_val st ≡ ok st'
      → Adds st (entries_named tag_name tag_val) st'
  unfolding add_named_tag entries_named
  add_named_tag-Adds cfg tag_name tag_val (buf, e) (buf', e') h =
      elim (Bool-cases (bytes_eq tag_name (codes "e") || bytes_eq tag_name (codes "p"))) [
        | inl fixed ↦
            let (b, dec, adds) =
              add_fixed_tag-Adds tag_name tag_val buf e (buf', e') (rw fixed at h) in
            rw (fixed, dec) adds
        | inr other ↦ elim (Bool-cases (bytes_eq tag_name (codes "expiration"))) [
          | inl exp ↦
              rw (other, exp) (add_expiration-Adds tag_val buf e (buf', e') (rw (other, exp) at h))
          | inr other' ↦ elim (Bool-cases (length tag_name == 1)) [
            | inl one ↦
                rw (other, other', one)
                  (add_short_tag-Adds cfg tag_name tag_val buf e (buf', e')
                    (rw (other, other', one) at h))
            | inr many ↦
                let same : (buf ≡ buf') × (e ≡ e') = ground arith in
                rw (other, other', many)
                  (unfold encode_tags in rw (append-nil buf) (sym same.0, tt, inl (sym same.1)))
          ]
        ]
      ]

  add_json_tag-Adds :
      (cfg : EventsConfig) (t : V) (st st' : Bytes × ℕ)
      → add_json_tag json hex cfg t st ≡ ok st'
      → Adds st (tag_entries t) st'
  unfolding add_json_tag tag_entries read_entries
  add_json_tag-Adds cfg t st st' h = >>=-elim (or_throw (json.get_array t) _) _ h λ tag got h1.
      >>=-elim (tag_name_of json hex tag) _ h1 λ name named h2.
        >>=-elim (tag_val_of json hex tag) _ h2 λ val valued h3.
          let read : read_entries t ≡ ok (entries_named name val) = rw (got, named, valued) in
          subst (λ l. Adds st l st') (sym (ap or_empty read))
            (add_named_tag-Adds cfg name val st st' h3)

  NextExpiration-trans : (a b c : ℕ) → NextExpiration a b → NextExpiration b c → NextExpiration a c
  NextExpiration-trans a b c (inl e) h = rw (← e) h
  NextExpiration-trans a b c (inr h) (inl e) = inr (rw e h)
  NextExpiration-trans a b c (inr h) (inr k) = inr k

  -- When the loop over an event's JSON tags succeeds, the builder's buffer is the encoding of the
  -- entries of every tag, in order, behind what it held, and every entry fits its length byte. A
  -- tag named "e" or "p" has its decoded value as entry, another tag of one letter its value
  -- if that has at most 255 bytes, "expiration" and longer names have none. The expiration is
  -- kept or is at least 100 and below 2^64.
  pub add_json_tags-entries :
      (cfg : EventsConfig) (ts : List V) (st st' : Bytes × ℕ)
      → add_json_tags json hex cfg ts st ≡ ok st'
      → (st'.0 ≡ st.0 ++ encode_tags (all_entries ts))
        × All FitsTag (all_entries ts)
        × NextExpiration st.1 st'.1
  unfolding add_json_tags all_entries
  add_json_tags-entries cfg [] (buf, e) (buf', e') h =
      unfold encode_tags in rw (append-nil buf) (ground arith, tt, ground arith)
  add_json_tags-entries cfg (t ∷ ts) (buf, e) (buf', e') h =
      let ((buf1, e1), one, rest) = >>=-eq-ok (add_json_tag json hex cfg t (buf, e)) _ h in
      let (enc, fits, exp) = add_json_tag-Adds cfg t (buf, e) (buf1, e1) one in
      let (enc', fits', exp') = add_json_tags-entries cfg ts (buf1, e1) (buf', e') rest in
      (
        enc'
            ∙ ap (λ b. b ++ encode_tags (all_entries ts)) enc
            ∙ append_assoc buf (encode_tags (tag_entries t)) (encode_tags (all_entries ts))
            ∙ ap (λ b. buf ++ b) (sym (encode_tags-append (tag_entries t) (all_entries ts))),
        All-append (tag_entries t) (all_entries ts) fits fits',
        NextExpiration-trans e e1 e' exp exp',
      )
