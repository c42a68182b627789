-- ===== src/Otlp/Ends.antt =====
-- The walk over a protobuf body has fuel enough.
use thermite_rs.Prelude.{
  length-drop, Bool, refl, not, ltb, leb, drop, zero, if_keeps, ◌==◌, Bytes, List, Result, Text, [],
  arith, err, length, none, ok, some, suc, ℕ, ◌++◌, ◌∷◌, ◌≡◌, ◌≤◌, ◌<◌, is_some, true,
}
use thermite_rs.Json.{end}
use thermite_rs.Otlp.Record.{Group, Record}
use thermite_rs.Otlp.Proto.{
  Prost, Tagged, Walk, attributes, decode, fields, max_groups, max_records, read_by, read_group,
  read_groups, read_records, record_from, tagged_fields, walk_fields, walked,
}

-- A condition on what a reader leaves.
abbrev pub Leaves : {A : Type 0} → (A → Type 0) → Result Text A → Type 0
Leaves P (err e) = Unit
Leaves P (ok a) = P a

-- A key takes a byte at least; the readers of the rest of a field give no bytes back.
pub record Consumes (prost : Prost) : Type 0 where
  pub key_takes :
      (bs : Bytes)
      → Leaves (λ (k : (ℕ × Bool) × Bytes). length k.1 < length bs) (prost.decode_key bs)
  pub skip_takes :
      (tag : ℕ) (bs : Bytes) → Leaves (λ rest. length rest ≤ length bs) (prost.skip_field tag bs)
  pub varint_takes :
      (bs : Bytes) → Leaves (λ (n : ℕ × Bytes). length n.1 ≤ length bs) (prost.decode_varint bs)

-- The walk comes to something.
abbrev Ends : {A : Type 0} → Walk A → Type 0
Ends w = is_some w ≡ true

walked-Ends :
    {A B : Type 0} (w : Walk A) (f : A → Walk B)
    → Ends w
    → ((a : A) → Ends (f a))
    → Ends (walked w f)
walked-Ends none f h k = h
walked-Ends (some (err e)) f h k = refl
walked-Ends (some (ok a)) f h k = k a

read_by-Ends :
    {A B : Type 0} (P : A → Type 0) (read : Result Text A) (f : A → Walk B)
    → Leaves P read
    → ((a : A) → P a → Ends (f a))
    → Ends (read_by read f)
read_by-Ends P (err e) f h k = refl
read_by-Ends P (ok a) f h k = k a h

Leaves-any : {A : Type 0} (read : Result Text A) → Leaves (λ _. Unit) read
Leaves-any (err e) = tt
Leaves-any (ok a) = tt

not-lt-zero : (n : ℕ) → n < 0 → ⊥
not-lt-zero n h = omega (arith, h)

module _ (prost : Prost) where
  walk_fields-Ends :
      Consumes prost
      → (fuel budget : ℕ) (buf : Bytes) (found : List Tagged) → length buf < fuel
      → Ends (walk_fields prost fuel budget buf found)
  unfolding walk_fields
  walk_fields-Ends c zero budget buf found h = elim (not-lt-zero (length buf) h) [ ]
  walk_fields-Ends c (suc fuel) budget [] found h = refl
  walk_fields-Ends c (suc fuel) budget (b ∷ bs) found h =
      read_by-Ends _ (prost.decode_key (b ∷ bs)) _ (c.key_takes (b ∷ bs)) (λ key k.
        if_keeps Ends (not key.0.1) _ _
          (read_by-Ends _ (prost.skip_field key.0.0 key.1) _ (c.skip_takes key.0.0 key.1)
            (λ rest m. walk_fields-Ends c fuel budget rest found (omega (arith, h, k, m))))
          (read_by-Ends _ (prost.decode_varint key.1) _ (c.varint_takes key.1) (λ sized m.
            if_keeps Ends (ltb (length sized.1) sized.0) _ _ refl (
              if_keeps Ends (leb budget (length found)) _ _ refl (
                walk_fields-Ends c fuel budget (drop sized.0 sized.1) _
                  (omega (arith, h, k, m, length-drop sized.0 sized.1)))))))

  tagged_fields-Ends :
      Consumes prost → (budget : ℕ) (buf : Bytes) → Ends (tagged_fields prost budget buf)
  unfolding tagged_fields
  tagged_fields-Ends c budget buf =
      walk_fields-Ends c (suc (length buf)) budget buf [] (omega arith)

  fields-Ends : Consumes prost → (tag budget : ℕ) (buf : Bytes) → Ends (fields prost tag budget buf)
  unfolding fields
  fields-Ends c tag budget buf =
      walked-Ends (tagged_fields prost budget buf) _ (tagged_fields-Ends c budget buf) (λ all. refl)

  read_records-Ends :
      (bs : List Bytes) (budget : ℕ) (records : List Record)
      → Ends (read_records prost bs budget records)
  unfolding read_records
  read_records-Ends [] budget records = refl
  read_records-Ends (b ∷ bs) zero records = refl
  read_records-Ends (b ∷ bs) (suc budget) records =
      read_by-Ends (λ _. Unit) (prost.decode_record b) _ (Leaves-any (prost.decode_record b))
        (λ message _. read_records-Ends bs budget (records ++ record_from prost message ∷ []))

  read_group-Ends :
      Consumes prost
      → (tagged : List Tagged) (budget : ℕ) (group : Group)
      → Ends (read_group prost tagged budget group)
  unfolding read_group
  read_group-Ends c [] budget group = refl
  read_group-Ends c ((tag, bytes) ∷ rest) budget group =
      if_keeps Ends (tag == 1) _ _
        (read_by-Ends (λ _. Unit) (prost.decode_resource bytes) _
          (Leaves-any (prost.decode_resource bytes))
          (λ messages _.
            read_group-Ends c rest budget (record group { resource = attributes messages })))
        (if_keeps Ends (tag == 2) _ _
          (walked-Ends (fields prost 2 budget bytes) _ (fields-Ends c 2 budget bytes) (λ records.
            walked-Ends (read_records prost records budget group.records) _
              (read_records-Ends records budget group.records)
              (λ read. read_group-Ends c rest read.1 (record group { records = read.0 }))))
          (read_group-Ends c rest budget group))

  read_groups-Ends :
      Consumes prost
      → (bs : List Bytes) (budget : ℕ) (groups : List Group)
      → Ends (read_groups prost bs budget groups)
  unfolding read_groups
  read_groups-Ends c [] budget groups = refl
  read_groups-Ends c (b ∷ bs) budget groups =
      walked-Ends (tagged_fields prost max_groups b) _ (tagged_fields-Ends c max_groups b)
        (λ tagged.
          walked-Ends (read_group prost tagged budget (record { resource = end; records = [] })) _
            (read_group-Ends c tagged budget (record { resource = end; records = [] }))
            (λ read. read_groups-Ends c bs read.1 (groups ++ read.0 ∷ [])))

  -- The protobuf reader always comes to a result or an error, when reading the key of a field takes a
  -- byte and no reader of the rest of it gives bytes back.
  pub decode_ends : Consumes prost → (body : Bytes) → is_some (decode prost body) ≡ true
  unfolding decode
  decode_ends c body =
      walked-Ends (fields prost 1 max_groups body) _ (fields-Ends c 1 max_groups body)
        (λ logs. read_groups-Ends c logs max_records [])
