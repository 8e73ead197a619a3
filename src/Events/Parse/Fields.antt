-- ===== src/Events/Parse/Fields.antt =====
-- What nostrJsonToPackedEvent of src/events_parse.cpp makes of an event's JSON.
use strfry.Prelude.{
  ℕ, ◌≤◌, ◌<◌, String, ◌≡◌, refl, sym, ap, ◌∙◌, ◌⊎◌, inl, inr, Bool, true, false, not, Option, none,
  some, List, [], ◌∷◌, ◌++◌, arith, ltb, ◌==◌, if◌then◌else◌, Option-cases, u64_mod, length, All,
  Error, ok, throw_if, or_throw, >>=-eq-ok, >>=-elim,
}
use strfry.Prelude.Bytes.{Bytes}
use mathlib.Core.List.{append-nil, append_assoc}
use strfry.External.{Json, Hex, json_at}
use strfry.PackedEvent.{Lmdb, add, packed_event_builder}
use strfry.PackedEvent.Lemmas.{Tag, encode_tag, encode_tags, FitsTag}
use strfry.PackedEvent.RoundTrip.{EventData, IsPackable, pack, packed, pack-packed}
use strfry.Events.Kind.{is_replaceable, is_param_replaceable, is_ephemeral}
use strfry.Events.Parse.{
  EventsConfig, hex_decode, string_at, unsigned_at, add_json_tags, add_virtual,
  nostr_json_to_packed_event,
}
use strfry.Events.Parse.Tags.{all_entries, add_json_tags-entries, encode_tags-append, All-append}
use strfry.Events.Parse.Expiration.{first_expiration, add_json_tags-expiration}

abbrev pub virtual_d : Bool → List Tag
virtual_d true = (b'd', []) ∷ []
virtual_d false = []

module _ {V : Type 0} (json : Json V) (hex : Hex) ⦃lmdb : Lmdb⦄ where
  -- The packed event that a JSON event stands for.
  pub record FromJson (v : V) (d : EventData) : Type 0 where
    pub id_hex : Bytes
    pub id_field : string_at json hex v "id" "event id field was not a string" ≡ ok id_hex
    pub id : hex.from_hex id_hex ≡ some d.id
    pub pubkey_hex : Bytes
    pub pubkey_field :
        string_at json hex v "pubkey" "event pubkey field was not a string" ≡ ok pubkey_hex
    pub pubkey : hex.from_hex pubkey_hex ≡ some d.pubkey
    pub created_at :
        unsigned_at json hex v "created_at" "event created_at field was not an integer"
        ≡ ok d.created_at
    pub kind : unsigned_at json hex v "kind" "event kind field was not an integer" ≡ ok d.kind
    pub tag_list : List V
    pub tags_json : V
    pub tags_field : json_at json v "tags" ≡ ok tags_json
    pub tags_array : json.get_array tags_json ≡ some tag_list
    -- The virtual d-tag before or behind, and between them the entries of the JSON tags.
    pub tags :
        d.tags
        ≡ virtual_d (is_replaceable d.kind)
          ++ (all_entries json hex tag_list ++ virtual_d (is_param_replaceable d.kind))
    pub ephemeral : is_ephemeral d.kind ≡ true → d.expiration ≡ 1
    pub lasting : is_ephemeral d.kind ≡ false → d.expiration ≡ first_expiration json hex tag_list
    pub not_small : is_ephemeral d.kind ≡ false → (d.expiration ≡ 0) ⊎ (100 ≤ d.expiration)

  add_virtual-encode :
      (b : Bool) (buf buf' : Bytes)
      → add_virtual json hex b buf ≡ ok buf'
      → buf' ≡ buf ++ encode_tags (virtual_d b)
  unfolding add_virtual add encode_tags
  add_virtual-encode true buf buf' h = ground (arith, append-nil (encode_tag (b'd', [])))
  add_virtual-encode false buf buf' h = rw (append-nil buf) (ground arith)

  All-virtual : (b : Bool) → All FitsTag (virtual_d b)
  All-virtual true = (omega arith, tt)
  All-virtual false = tt

  unsigned_at-lt :
      (v : V) (key msg : String) (n : ℕ) → unsigned_at json hex v key msg ≡ ok n → n < u64_mod
  unfolding unsigned_at
  unsigned_at-lt v key msg n h =
      let (x, got, h1) = >>=-eq-ok (json_at json v key) _ h in
      elim (Option-cases (json.get_unsigned x)) [
        | inl e ↦ absurd (ground arith)
        | inr (m, e) ↦ let same : m ≡ n = ground arith in json.unsigned-lt x n (rw (← same) e)
      ]

  pub hex_decode-some : (s b : Bytes) → hex_decode json hex s ≡ ok b → hex.from_hex s ≡ some b
  hex_decode-some s b h = elim (Option-cases (hex.from_hex s)) [
    | inl e ↦ absurd (ground arith)
    | inr (c, e) ↦ let same : c ≡ b = ground arith in rw (← same) e
  ]

  or_throw-some : {A : Type 0} (o : Option A) (e : Error) (a : A) → or_throw o e ≡ ok a → o ≡ some a
  or_throw-some none e a h = cc
  or_throw-some (some b) e a h = let same : b ≡ a = ground arith in rw same

  size_ok :
      (s : Bytes) (e : Error) {u : Unit {0}}
      → throw_if (not (length s == 32)) e ≡ ok u
      → length s ≡ 32
  size_ok s e h = ground arith

  builder-ok :
      (d : EventData) (tags buf : Bytes)
      → packed_event_builder d.id d.pubkey d.created_at d.kind d.expiration tags ≡ ok buf
      → tags ≡ encode_tags d.tags
      → buf ≡ packed d
  unfolding packed_event_builder packed
  builder-ok d tags buf h e = rw (← e) (ground arith)

  expiration_bound :
      (b : Bool) (e : ℕ) → (e ≡ 0) ⊎ ((100 ≤ e) × (e < u64_mod)) → (if b then 1 else e) < u64_mod
  expiration_bound b e h = ground arith

  -- The event that the parser's intermediate results stand for.
  event_of : (id pk : Bytes) (created kind expiration : ℕ) (tags : List V) → EventData
  event_of id pk created kind expiration tags = record {
    id = id;
    pubkey = pk;
    created_at = created;
    kind = kind;
    expiration = if is_ephemeral kind then 1 else expiration;
    tags =
        virtual_d (is_replaceable kind)
        ++ (all_entries json hex tags ++ virtual_d (is_param_replaceable kind));
  }

  module _ (id pk : Bytes) (created kind expiration : ℕ) (tags : List V) (buf0 buf1 buf2 : Bytes)
      (virt0 : add_virtual json hex (is_replaceable kind) [] ≡ ok buf0)
      (enc : buf1 ≡ buf0 ++ encode_tags (all_entries json hex tags))
      (fits : All FitsTag (all_entries json hex tags))
      (virt1 : add_virtual json hex (is_param_replaceable kind) buf1 ≡ ok buf2) where
    event_of-tags : buf2 ≡ encode_tags (event_of id pk created kind expiration tags).tags
    unfolding event_of
    event_of-tags =
        let pre : List Tag = virtual_d (is_replaceable kind) in
        let mid = all_entries json hex tags in
        let post : List Tag = virtual_d (is_param_replaceable kind) in
        add_virtual-encode (is_param_replaceable kind) buf1 buf2 virt1
        ∙ ap (λ b. b ++ encode_tags post)
            (enc
              ∙ ap (λ b. b ++ encode_tags mid)
                  (add_virtual-encode (is_replaceable kind) [] buf0 virt0))
        ∙ append_assoc (encode_tags pre) (encode_tags mid) (encode_tags post)
        ∙ ap (λ b. encode_tags pre ++ b) (sym (encode_tags-append mid post))
        ∙ sym (encode_tags-append pre (mid ++ post))

    event_of-FitsTag : All FitsTag (event_of id pk created kind expiration tags).tags
    unfolding event_of
    event_of-FitsTag =
        All-append (virtual_d (is_replaceable kind)) _ (All-virtual (is_replaceable kind))
          (All-append (all_entries json hex tags) _ fits (All-virtual (is_param_replaceable kind)))

  -- When the parser accepts an event, the buffer is the packing of the event that the JSON stands
  -- for: hex fields decoded to 32 bytes, numbers below 2^64, the tags' entries between the virtual
  -- d-tags, and the expiration 1 for an ephemeral kind, otherwise that of the first tag named
  -- "expiration", which is at least 100, or 0 where there is no such tag.
  pub nostr_json_to_packed_event-FromJson :
      (cfg : EventsConfig) (v : V) (buf : Bytes)
      → nostr_json_to_packed_event json hex cfg v ≡ ok buf
      → (d : EventData) × FromJson v d × IsPackable d × (pack d ≡ ok buf)
  unfolding nostr_json_to_packed_event
  nostr_json_to_packed_event-FromJson cfg v buf h =
      >>=-elim (string_at json hex v "id" _) _ h λ id_hex id_field h1.
        >>=-elim (hex_decode json hex id_hex) _ h1 λ id id_dec h2.
          >>=-elim (string_at json hex v "pubkey" _) _ h2 λ pk_hex pk_field h3.
            >>=-elim (hex_decode json hex pk_hex) _ h3 λ pk pk_dec h4.
              >>=-elim (unsigned_at json hex v "created_at" _) _ h4 λ created created_field h5.
                >>=-elim (unsigned_at json hex v "kind" _) _ h5 λ kind kind_field h6.
                  >>=-elim (throw_if (not (length id == 32)) _) _ h6 λ u1 id_size h7.
                    >>=-elim (throw_if (not (length pk == 32)) _) _ h7 λ u2 pk_size h8.
                      >>=-elim (string_at json hex v "content" _) _ h8 λ content content_field h9.
                        >>=-elim (add_virtual json hex (is_replaceable kind) []) _ h9
                          λ buf0 virt0 h10.
                            >>=-elim (json_at json v "tags") _ h10 λ tags_json tags_field h11.
                              >>=-elim (or_throw (json.get_array tags_json) _) _ h11
                                λ tags tags_array h12.
                                  >>=-elim (throw_if (ltb cfg.max_num_tags (length tags)) _) _ h12
                                    λ u3 few h13.
                                      >>=-elim (add_json_tags json hex cfg tags (buf0, 0)) _ h13
                                        λ st added h14.
                                          >>=-elim
                                            (add_virtual json hex (is_param_replaceable kind) st.0)
                                            _ h14
                                            λ buf1 virt1 built.
                                              let (enc, fits, exp) =
                                                add_json_tags-entries json hex cfg tags (buf0, 0) st
                                                  added in
                                              let d = event_of id pk created kind st.1 tags in
                                              let in_order : buf1 ≡ encode_tags d.tags =
                                                event_of-tags id pk created kind st.1 tags buf0 st.0
                                                  buf1 virt0 enc fits virt1 in
                                              let packable : IsPackable d =
                                                unfold event_of in
                                                record {
                                                  id_size = size_ok id _ id_size;
                                                  pubkey_size = size_ok pk _ pk_size;
                                                  created_at_u64 =
                                                      unsigned_at-lt v "created_at" _ created
                                                        created_field;
                                                  kind_u64 =
                                                      unsigned_at-lt v "kind" _ kind kind_field;
                                                  expiration_u64 =
                                                      expiration_bound (is_ephemeral kind) st.1 exp;
                                                  tags_fit =
                                                      event_of-FitsTag id pk created kind st.1 tags
                                                        buf0 st.0 buf1 virt0 enc fits virt1;
                                                } in
                                              (
                                                d,
                                                (unfold event_of in
                                                    record {
                                                      id_hex = id_hex;
                                                      id_field = id_field;
                                                      id = hex_decode-some id_hex id id_dec;
                                                      pubkey_hex = pk_hex;
                                                      pubkey_field = pk_field;
                                                      pubkey = hex_decode-some pk_hex pk pk_dec;
                                                      created_at = created_field;
                                                      kind = kind_field;
                                                      tag_list = tags;
                                                      tags_json = tags_json;
                                                      tags_field = tags_field;
                                                      tags_array =
                                                          or_throw-some (json.get_array tags_json) _
                                                            tags tags_array;
                                                      tags = refl;
                                                      ephemeral = λ e. rw e;
                                                      lasting = λ e. rw e (
                                                          add_json_tags-expiration json hex cfg tags
                                                            (buf0, 0) st added);
                                                      not_small = λ e. rw e (ground arith);
                                                    }),
                                                packable,
                                                pack-packed d packable
                                                    ∙ ap ok (
                                                        sym (
                                                          builder-ok d buf1 buf
                                                            (unfold event_of in built) in_order)),
                                              )
