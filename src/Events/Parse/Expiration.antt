-- ===== src/Events/Parse/Expiration.antt =====
-- The expiration that nostrJsonToPackedEvent of src/events_parse.cpp takes from an event's tags.
use strfry.Prelude.{
  ltb, not, true, false, Option, throw_if, ℕ, ◌≤◌, ◌≡◌, refl, sym, ap, subst, ◌∙◌, ◌⊎◌, inl, inr,
  ◌||◌, none, some, List, [], ◌∷◌, arith, leb, ◌==◌, if◌then◌else◌, Bool-cases, length, herr,
  Result, ok, err, ◌>>=◌, or_throw, >>=-eq-ok, >>=-elim,
}
use strfry.Prelude.Bytes.{Bytes, codes, bytes_eq, bytes_eq→eq}
use strfry.External.{Json, Hex}
use strfry.PackedEvent.{add}
use strfry.Filters.SetBytes.{max_indexed_tag_val_size}
use strfry.Events.Parse.{
  EventsConfig, hex_decode, decimal, stoull, parse_uint64, head_byte, tag_name_of, tag_val_of,
  add_fixed_tag, add_expiration, add_short_tag, add_named_tag, add_json_tag, add_json_tags,
}

abbrev pub or_none : Result (Option ℕ) → Option ℕ
or_none (ok o) = o
or_none (err e) = none

abbrev pub given_or : Option ℕ → ℕ → ℕ
given_or none rest = rest
given_or (some n) rest = n

module _ {V : Type 0} (json : Json V) (hex : Hex) where
  -- The number that a tag named "expiration" gives; none of another tag or a malformed one.
  unfoldable pub read_expiration : V → Result (Option ℕ)
  read_expiration t = do
    tag ← or_throw (json.get_array t) (herr "tag in tags field was not an array")
    tag_name ← tag_name_of json hex tag
    tag_val ← tag_val_of json hex tag
    ok (if bytes_eq tag_name (codes "expiration") then some (decimal 0 tag_val) else none)

  unfoldable pub tag_expiration : V → Option ℕ
  tag_expiration t = or_none (read_expiration t)

  -- The first tag named "expiration" counts; 0 where there is none.
  unfoldable pub first_expiration : List V → ℕ
  first_expiration [] = 0
  first_expiration (t ∷ ts) = given_or (tag_expiration t) (first_expiration ts)

  -- What a tag does to the expiration: nothing, if it gives none or an earlier one did.
  abbrev Expires : ℕ → Option ℕ → ℕ → Type 0
  Expires e given e' =
      ((given ≡ none) × (e' ≡ e))
      ⊎ ((((e == 0) ≡ false) × (e' ≡ e))
          ⊎ ((e ≡ 0) × ((n : ℕ) × (given ≡ some n) × (e' ≡ n) × (100 ≤ n))))

  add_fixed_tag-keeps :
      (tag_name tag_val buf : Bytes) (e : ℕ) (st : Bytes × ℕ)
      → add_fixed_tag json hex tag_name tag_val (buf, e) ≡ ok st
      → st.1 ≡ e
  unfolding add_fixed_tag
  add_fixed_tag-keeps tag_name tag_val buf e st h =
      >>=-elim (throw_if (not (length tag_val == 64)) _) _ h λ u sized h1.
        >>=-elim (hex_decode json hex tag_val) _ h1 λ b decoded h2.
          >>=-elim (add buf (head_byte tag_name) b) _ h2 λ buf' added h3. ground arith

  add_short_tag-keeps :
      (cfg : EventsConfig) (tag_name tag_val buf : Bytes) (e : ℕ) (st : Bytes × ℕ)
      → add_short_tag json hex cfg tag_name tag_val (buf, e) ≡ ok st
      → st.1 ≡ e
  unfolding add_short_tag
  add_short_tag-keeps cfg tag_name tag_val buf e st h =
      >>=-elim (throw_if (ltb cfg.max_tag_val_size (length tag_val)) _) _ h λ u fits h1.
        elim (Bool-cases (leb (length tag_val) max_indexed_tag_val_size)) [
          | inl y ↦
              >>=-elim (add buf (head_byte tag_name) tag_val) _ (rw y at h1)
                λ buf' added h2. ground arith
          | inr n ↦ let same = rw n at h1 in ground arith
        ]

  parse_uint64-decimal : (s : Bytes) (n : ℕ) → parse_uint64 s ≡ ok n → decimal 0 s ≡ n
  unfolding parse_uint64 stoull
  parse_uint64-decimal [] n h = ground arith
  parse_uint64-decimal (c ∷ s) n h = ground arith

  add_expiration-Expires :
      (tag_val buf : Bytes) (e : ℕ) (st : Bytes × ℕ)
      → add_expiration json hex tag_val (buf, e) ≡ ok st
      → Expires e (some (decimal 0 tag_val)) st.1
  unfolding add_expiration
  add_expiration-Expires tag_val buf e st h = elim (Bool-cases (e == 0)) [
    | inr later ↦ let same = rw later at h in inr (inl (later, ground arith))
    | inl first ↦ >>=-elim (parse_uint64 tag_val) _ (rw first at h) λ n parsed h1.
        >>=-elim (throw_if (ltb n 100) _) _ h1 λ u large h2. inr (
          inr (
            ground arith,
            (n, ap some (parse_uint64-decimal tag_val n parsed), ground arith, ground arith),
          ))
  ]

  -- A tag of that name is neither of "e" and "p".
  named_apart :
      (tag_name : Bytes)
      → bytes_eq tag_name (codes "expiration") ≡ true
      → (bytes_eq tag_name (codes "e") || bytes_eq tag_name (codes "p")) ≡ false
  named_apart tag_name h =
      rw (bytes_eq→eq tag_name (codes "expiration") h) (unfold bytes_eq in refl)

  add_named_tag-Expires :
      (cfg : EventsConfig) (tag_name tag_val : Bytes) (st st' : Bytes × ℕ)
      → add_named_tag json hex cfg tag_name tag_val st ≡ ok st'
      → Expires st.1
          (if bytes_eq tag_name (codes "expiration") then some (decimal 0 tag_val) else none)
          st'.1
  unfolding add_named_tag
  add_named_tag-Expires cfg tag_name tag_val (buf, e) st' h =
      elim (Bool-cases (bytes_eq tag_name (codes "expiration"))) [
        | inl exp ↦
            rw exp
              (add_expiration-Expires tag_val buf e st' (rw (named_apart tag_name exp, exp) at h))
        | inr other ↦
            rw other
              (elim (Bool-cases (bytes_eq tag_name (codes "e") || bytes_eq tag_name (codes "p"))) [
                | inl fixed ↦
                    inl (refl, add_fixed_tag-keeps tag_name tag_val buf e st' (rw fixed at h))
                | inr n ↦ elim (Bool-cases (length tag_name == 1)) [
                  | inl one ↦ inl (
                    refl,
                    add_short_tag-keeps cfg tag_name tag_val buf e st' (rw (n, other, one) at h),
                  )
                  | inr many ↦ let same = rw (n, other, many) at h in inl (refl, ground arith)
                ]
              ])
      ]

  add_json_tag-Expires :
      (cfg : EventsConfig) (t : V) (st st' : Bytes × ℕ)
      → add_json_tag json hex cfg t st ≡ ok st'
      → Expires st.1 (tag_expiration t) st'.1
  unfolding add_json_tag tag_expiration read_expiration
  add_json_tag-Expires cfg t st st' h = >>=-elim (or_throw (json.get_array t) _) _ h λ tag got h1.
      >>=-elim (tag_name_of json hex tag) _ h1 λ name named h2.
        >>=-elim (tag_val_of json hex tag) _ h2 λ val valued h3.
          let given = if bytes_eq name (codes "expiration") then some (decimal 0 val) else none in
          let read : read_expiration t ≡ ok given = rw (got, named, valued) in
          subst (λ o. Expires st.1 o st'.1) (sym (ap or_none read))
            (add_named_tag-Expires cfg name val st st' h3)

  -- When the loop over an event's JSON tags succeeds, the expiration is the one there was or else that
  -- of the first tag named "expiration".
  pub add_json_tags-expiration :
      (cfg : EventsConfig) (ts : List V) (st st' : Bytes × ℕ)
      → add_json_tags json hex cfg ts st ≡ ok st'
      → st'.1 ≡ (if st.1 == 0 then first_expiration ts else st.1)
  unfolding add_json_tags first_expiration
  add_json_tags-expiration cfg [] st st' h = ground arith
  add_json_tags-expiration cfg (t ∷ ts) st st' h =
      let (st1, one, rest) = >>=-eq-ok (add_json_tag json hex cfg t st) _ h in
      let later = add_json_tags-expiration cfg ts st1 st' rest in
      elim (add_json_tag-Expires cfg t st st1 one) [
        | inl (absent, same) ↦
            later
            ∙ rw same (
                ap (λ o. if st.1 == 0 then given_or o (first_expiration ts) else st.1) (sym absent))
        | inr (inl (set, same)) ↦ later ∙ rw (same, set) refl
        | inr (inr (zero, (n, given, now, large))) ↦
            let nonzero : (n == 0) ≡ false = ground arith in
            later ∙ rw (now, nonzero, zero) (ap (λ o. given_or o (first_expiration ts)) (sym given))
      ]
