-- ===== src/Tests/Instance.antt =====
-- The laws of the store's parameters hold of the tables as lists.
use strfry.Prelude.{
  ℕ, suc, ◌<◌, ◌≡◌, refl, ap, subst, ◌∙◌, ◌⊎◌, inl, inr, Bool, true, false, ◌&&◌, none, some, [],
  ◌∷◌, ◌++◌, arith, ◌==◌, Option-cases, u64_mod, max_u64, length, any, All, All-map,
}
use strfry.Prelude.Bytes.{Bytes, bytes_eq, bytes_eq_refl, bytes_eq→eq}
use strfry.PackedEvent.RoundTrip.{EventData}
use strfry.Store.{
  Row, find_row, remove_row, last_id, replace_key, is_deletion_row, starts_with, by_id, by_replace,
  Env,
}
use strfry.Tests.Codec.{unpack, unpack-packed}
use strfry.Tests.World.{little_endian}
use strfry.Tests.Table.{
  Table, Rising-remove_row, Rising-snoc, keys-lt, packed_option, find_payload, drop_payload,
  seek-cases, make_key, key_s, key_n, key_s-make_key, key_n-make_key, has_key, first_from,
  starts_with-append,
}

abbrev pub insert_row : Table → Bytes → ℕ × Table
insert_row t b = (
  suc (last_id t.rows),
  record {
    rows = t.rows ++ (suc (last_id t.rows), unpack b) ∷ [];
    rising =
        Rising-snoc t.rows (suc (last_id t.rows)) (unpack b) t.rising (keys-lt t.rows t.rising);
    payloads = t.payloads;
  },
)

abbrev pub delete_row : Table → ℕ → Table
delete_row t l = record {
  rows = remove_row l t.rows;
  rising = Rising-remove_row l t.rows t.rising;
  payloads = t.payloads;
}

abbrev pub del_payload : Table → ℕ → Bool × Table
del_payload t l =
    (true, record { rows = t.rows; rising = t.rising; payloads = drop_payload l t.payloads })

pub by_id_law :
    (t : Table) (i : Bytes)
    → length i ≡ 32
    → ((k : Bytes) × (l : ℕ) × (d : EventData) × (first_from t by_id (make_key i 0) 0 false
          ≡ some (k, l))
        × (starts_with i k ≡ true)
        × (find_row l t.rows ≡ some d)
        × (d.id ≡ i))
      ⊎ (All (λ (r : Row). bytes_eq r.1.id i ≡ false) t.rows
          × ((first_from t by_id (make_key i 0) 0 false ≡ none)
              ⊎ ((k : Bytes) × (l : ℕ) × (first_from t by_id (make_key i 0) 0 false ≡ some (k, l))
                  × (starts_with i k ≡ false))))
by_id_law t i size =
    rw (key_s-make_key i 0) (elim (seek-cases (λ d. bytes_eq d.id i) t.rows t.rising) [
      | inl (l, d, sought, found, hit) ↦
          let same : d.id ≡ i = bytes_eq→eq d.id i hit in
          inl (
            make_key d.id d.created_at,
            l,
            d,
            rw sought,
            subst (λ (b : Bytes). starts_with b (make_key d.id d.created_at) ≡ true) same
                (starts_with-append d.id _),
            found,
            same,
          )
      | inr (sought, absent) ↦ inr (absent, inl (rw sought))
    ])

has_key-keys :
    (s : Bytes) (n : ℕ) (d : EventData)
    → has_key s n d ≡ true
    → (replace_key d ≡ some s) × (d.kind ≡ n)
has_key-keys s n d h = elim (Option-cases (replace_key d)) [
  | inl none_found ↦ absurd (ground arith)
  | inr (s', key) ↦
      let eq : bytes_eq s' s ≡ true = ground arith in
      (key ∙ ap some (bytes_eq→eq s' s eq), ground arith)
]

keys-has_key :
    (s : Bytes) (n : ℕ) (d : EventData)
    → has_key s n d ≡ false
    → ¬ ((replace_key d ≡ some s) × (d.kind ≡ n))
keys-has_key s n d h (key, kind) =
    let same : (d.kind == n) ≡ true = ground arith in
    let eq : has_key s n d ≡ true = rw (key, bytes_eq_refl s, same) in cc (h, eq)

pub by_replace_law :
    (t : Table) (s : Bytes) (n : ℕ)
    → n < u64_mod
    → ((l : ℕ) × (d : EventData) × (first_from t by_replace (make_key s n) max_u64 true
          ≡ some (make_key s n, l))
        × (find_row l t.rows ≡ some d)
        × (replace_key d ≡ some s)
        × (d.kind ≡ n))
      ⊎ (All (λ (r : Row). ¬ ((replace_key r.1 ≡ some s) × (r.1.kind ≡ n))) t.rows
          × ((first_from t by_replace (make_key s n) max_u64 true ≡ none)
              ⊎ ((s' : Bytes) × (n' : ℕ) × (l : ℕ) × (n' < u64_mod)
                  × (first_from t by_replace (make_key s n) max_u64 true ≡ some (make_key s' n', l))
                  × ((bytes_eq s' s && (n' == n)) ≡ false))))
by_replace_law t s n small =
    rw (key_s-make_key s n, key_n-make_key s n small)
      (elim (seek-cases (has_key s n) t.rows t.rising) [
        | inl (l, d, sought, found, hit) ↦
            let (key, kind) = has_key-keys s n d hit in inl (l, d, rw sought, found, key, kind)
        | inr (sought, absent) ↦ inr (
          All-map {A = Row} (λ r. has_key s n r.1 ≡ false)
              (λ r. ¬ ((replace_key r.1 ≡ some s) × (r.1.kind ≡ n))) (λ r. keys-has_key s n r.1)
              t.rows absent,
          inl (rw sought),
        )
      ])

abbrev pub list_env : Env
list_env = record {
  Db = Table;
  rows = λ t. t.rows;
  make_key = make_key;
  key_s = key_s;
  key_n = key_n;
  key_s-make_key = key_s-make_key;
  key_n-make_key = key_n-make_key;
  lookup_event = λ t l. packed_option (find_row l t.rows);
  insert_event = insert_row;
  delete_event = delete_row;
  lookup_event-none = λ t l h. ap packed_option h;
  lookup_event-some = λ t l d h. ap packed_option h;
  insert_event-id = λ t b. refl;
  rows-insert_event =
      λ t d p. ap (λ (x : EventData). t.rows ++ (suc (last_id t.rows), x) ∷ []) (unpack-packed d p);
  rows-delete_event = λ t l. refl;
  get_payload = λ t l. find_payload l t.payloads;
  put_payload = λ t l b. record {
    rows = t.rows;
    rising = t.rising;
    payloads = (l, b) ∷ drop_payload l t.payloads;
  };
  del_payload = del_payload;
  rows-put_payload = λ t l b. refl;
  rows-del_payload = λ t l. refl;
  first_from = first_from;
  first_from-by_id = by_id_law;
  first_from-by_replace = by_replace_law;
  has_deletion = λ t key. any (λ (r : Row). is_deletion_row key r.1) t.rows;
  has_deletion-any = λ t key. refl;
  last_event = λ t. elim t.rows [ [] ↦ none | r ∷ rs ↦ some (last_id t.rows) ];
}
