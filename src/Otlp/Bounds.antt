-- ===== src/Otlp/Bounds.antt =====
-- How much a protobuf body can make its reader hold, and that the walk over it ends.
use thermite_rs.Prelude.{
  Bool-cases, Bytes, List, Result, Text, [], arith, drop, err, filter, if_keeps, if◌then◌else◌, inl,
  inr, leb, length, length-append, ltb, map, none, not, ok, refl, some, subst, suc, take, zero, ℕ,
  ◌++◌, ◌+◌, ◌==◌, ◌∷◌, ◌≡◌, ◌≤◌,
}
use thermite_rs.Json.{end}
use thermite_rs.Otlp.Record.{Group, Record}
use thermite_rs.Otlp.Proto.{
  Prost, Tagged, Walk, attributes, decode, fields, max_groups, max_records, read_by, read_group,
  read_groups, read_records, record_from, tagged_fields, too_many_records, walk_fields, walked,
}

-- The records of all groups.
abbrev pub total_records : List Group → ℕ
total_records [] = 0
total_records (g ∷ gs) = length g.records + total_records gs

total_records-append :
    (gs : List Group) (g : Group)
    → total_records (gs ++ g ∷ []) ≡ total_records gs + length g.records
total_records-append [] g = omega arith
total_records-append (h ∷ gs) g = omega (arith, total_records-append gs g)

-- A condition on the value of a walk that comes to one.
abbrev pub Holds : {A : Type 0} → (A → Type 0) → Walk A → Type 0
Holds P none = Unit
Holds P (some (err e)) = Unit
Holds P (some (ok a)) = P a

walked-Holds :
    {A B : Type 0} (P : A → Type 0) (Q : B → Type 0) (w : Walk A) (f : A → Walk B)
    → Holds P w
    → ((a : A) → P a → Holds Q (f a))
    → Holds Q (walked w f)
walked-Holds P Q none f h k = tt
walked-Holds P Q (some (err e)) f h k = tt
walked-Holds P Q (some (ok a)) f h k = k a h

read_by-Holds :
    {A B : Type 0} (Q : B → Type 0) (read : Result Text A) (f : A → Walk B)
    → ((a : A) → Holds Q (f a))
    → Holds Q (read_by read f)
read_by-Holds Q (err e) f k = tt
read_by-Holds Q (ok a) f k = k a

Holds-any : {A : Type 0} (w : Walk A) → Holds (λ _. Unit) w
Holds-any none = tt
Holds-any (some (err e)) = tt
Holds-any (some (ok a)) = tt

Holds-mono :
    {A : Type 0} (P Q : A → Type 0) (w : Walk A) → ((a : A) → P a → Q a) → Holds P w → Holds Q w
Holds-mono P Q none f h = tt
Holds-mono P Q (some (err e)) f h = tt
Holds-mono P Q (some (ok a)) f h = f a h

length-tagged :
    (tag : ℕ) (all : List Tagged)
    → length (map (λ (f : Tagged). f.1) (filter (λ (f : Tagged). f.0 == tag) all)) ≤ length all
length-tagged tag [] = omega arith
length-tagged tag (f ∷ all) = ground (arith, length-tagged tag all)

module _ (prost : Prost) where
  read_records-budget :
      (bs : List Bytes) (budget : ℕ) (records : List Record)
      → Holds
          (λ (read : List Record × ℕ). length read.0 + read.1 ≡ length records + budget)
          (read_records prost bs budget records)
  unfolding read_records
  read_records-budget [] budget records = refl
  read_records-budget (b ∷ bs) zero records = tt
  read_records-budget (b ∷ bs) (suc budget) records =
      let P = λ (read : List Record × ℕ). length read.0 + read.1 ≡ length records + suc budget in
      read_by-Holds P (prost.decode_record b) _ (λ message.
        let one = length-append records (record_from prost message ∷ []) in
        subst
          (λ n.
            Holds (λ (read : List Record × ℕ). length read.0 + read.1 ≡ n)
              (read_records prost bs budget (records ++ record_from prost message ∷ [])))
          (omega (arith, one))
          (read_records-budget bs budget (records ++ record_from prost message ∷ [])))

  -- What the records of a group and the budget come to.
  abbrev Spent : ℕ → Group × ℕ → Type 0
  Spent n read = length read.0.records + read.1 ≡ n

  read_group-budget :
      (tagged : List Tagged) (budget : ℕ) (group : Group)
      → Holds (Spent (length group.records + budget)) (read_group prost tagged budget group)
  unfolding read_group
  read_group-budget [] budget group = refl
  read_group-budget ((tag, bytes) ∷ rest) budget group =
      let Q = Spent (length group.records + budget) in
      if_keeps (Holds Q) (tag == 1) _ _
        (read_by-Holds Q (prost.decode_resource bytes) _ (λ messages.
          read_group-budget rest budget (record group { resource = attributes messages })))
        (if_keeps (Holds Q) (tag == 2) _ _
          (walked-Holds (λ _. Unit) Q (fields prost 2 budget bytes) _
            (Holds-any (fields prost 2 budget bytes))
            (λ records _.
              walked-Holds
                (λ (read : List Record × ℕ). length read.0 + read.1 ≡ length group.records + budget)
                Q (read_records prost records budget group.records) _
                (read_records-budget records budget group.records)
                (λ read e.
                  subst
                    (λ n.
                      Holds (Spent n)
                        (read_group prost rest read.1 (record group { records = read.0 })))
                    e (read_group-budget rest read.1 (record group { records = read.0 })))))
          (read_group-budget rest budget group))

  -- A field more, if it is allowed.
  pushed-budget :
      (fuel budget : ℕ) (rest : Bytes) (found : List Tagged) (one : Tagged)
      → ((longer : List Tagged)
          → length longer ≤ budget
          → Holds
              (λ (all : List Tagged). length all ≤ budget)
              (walk_fields prost fuel budget rest longer))
      → Holds
          (λ (all : List Tagged). length all ≤ budget)
          (if leb budget (length found)
            then some (err too_many_records)
            else walk_fields prost fuel budget rest (found ++ one ∷ []))
  pushed-budget fuel budget rest found one k = elim (Bool-cases (leb budget (length found))) [
    | inl e ↦ rw e tt
    | inr e ↦ rw e (k (found ++ one ∷ []) (ground (arith, e, length-append found (one ∷ []))))
  ]

  walk_fields-budget :
      (fuel budget : ℕ) (buf : Bytes) (found : List Tagged)
      → length found ≤ budget
      → Holds (λ (all : List Tagged). length all ≤ budget) (walk_fields prost fuel budget buf found)
  unfolding walk_fields
  walk_fields-budget zero budget buf found h = tt
  walk_fields-budget (suc fuel) budget [] found h = h
  walk_fields-budget (suc fuel) budget (b ∷ bs) found h =
      let Q = λ (all : List Tagged). length all ≤ budget in
      read_by-Holds Q (prost.decode_key (b ∷ bs)) _ (λ key.
        if_keeps (Holds Q) (not key.0.1) _ _
          (read_by-Holds Q (prost.skip_field key.0.0 key.1) _
            (λ rest. walk_fields-budget fuel budget rest found h))
          (read_by-Holds Q (prost.decode_varint key.1) _ (λ sized.
            if_keeps (Holds Q) (ltb (length sized.1) sized.0) _ _ tt (
              pushed-budget fuel budget (drop sized.0 sized.1) found (key.0.0, take sized.0 sized.1)
                (walk_fields-budget fuel budget (drop sized.0 sized.1))))))

  Capped : ℕ → ℕ → List Group → Type 0
  Capped groups records all = (length all ≤ groups) × (total_records all ≤ records)

  read_groups-Capped :
      (bs : List Bytes) (budget : ℕ) (groups : List Group)
      → Holds
          (Capped (length groups + length bs) (total_records groups + budget))
          (read_groups prost bs budget groups)
  unfolding read_groups Capped
  read_groups-Capped [] budget groups = (omega arith, omega arith)
  read_groups-Capped (b ∷ bs) budget groups =
      let Q = Capped (length groups + suc (length bs)) (total_records groups + budget) in
      let empty : Group = record { resource = end; records = [] } in
      walked-Holds (λ _. Unit) Q (tagged_fields prost max_groups b) _
        (Holds-any (tagged_fields prost max_groups b))
        (λ tagged _.
          walked-Holds (Spent budget) Q (read_group prost tagged budget empty) _
            (subst (λ n. Holds (Spent n) (read_group prost tagged budget empty)) (omega arith)
              (read_group-budget tagged budget empty))
            (λ read e.
              Holds-mono
                (Capped (length (groups ++ read.0 ∷ []) + length bs)
                  (total_records (groups ++ read.0 ∷ []) + read.1))
                Q (read_groups prost bs read.1 (groups ++ read.0 ∷ []))
                (λ all c. (
                  omega (arith, c.0, length-append groups (read.0 ∷ [])),
                  omega (arith, c.1, e, total_records-append groups read.0),
                ))
                (read_groups-Capped bs read.1 (groups ++ read.0 ∷ []))))

  fields-budget :
      (tag budget : ℕ) (buf : Bytes)
      → Holds (λ (all : List Bytes). length all ≤ budget) (fields prost tag budget buf)
  unfolding fields tagged_fields
  fields-budget tag budget buf =
      walked-Holds (λ (all : List Tagged). length all ≤ budget)
        (λ (all : List Bytes). length all ≤ budget) (tagged_fields prost budget buf) _
        (walk_fields-budget (suc (length buf)) budget buf [] (omega arith))
        (λ all h. omega (arith, h, length-tagged tag all))

  decode-Capped : (body : Bytes) → Holds (Capped max_groups max_records) (decode prost body)
  unfolding decode Capped
  decode-Capped body =
      walked-Holds (λ (all : List Bytes). length all ≤ max_groups) (Capped max_groups max_records)
        (fields prost 1 max_groups body) _ (fields-budget 1 max_groups body)
        (λ logs h.
          Holds-mono (Capped (0 + length logs) (0 + max_records)) (Capped max_groups max_records)
            (read_groups prost logs max_records [])
            (λ all c. (omega (arith, c.0, h), omega (arith, c.1)))
            (read_groups-Capped logs max_records []))

-- What the protobuf reader returns has no more than 64 groups and no more than 10000 records in them.
pub decode_caps :
    (prost : Prost) (body : Bytes) (groups : List Group)
    → decode prost body ≡ some (ok groups)
    → (length groups ≤ max_groups) × (total_records groups ≤ max_records)
unfolding Capped
decode_caps prost body groups e =
    subst (Holds (Capped prost max_groups max_records)) e (decode-Capped prost body)
