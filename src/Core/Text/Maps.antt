-- ===== src/Core/Text/Maps.antt =====
-- `BTreeMap` with texts as keys: the list of its entries in an order of the keys.
use yams.Prelude.{
  ◌≡◌, ◌≢◌, refl, inl, inr, Bool, true, false, Option, none, some, List, [], ◌∷◌, map, arith,
  if◌then◌else◌, All, Bool-cases,
}
use yams.Core.Text.{Text}
use yams.Core.Text.Order.{text_eq, text_eq_iff, TextOrder, Distinct}

-- `get`
unfoldable pub lookup : {V : Type 0} → Text → List (Text × V) → Option V
lookup key [] = none
lookup key ((k, v) ∷ m) = if text_eq key k then some v else lookup key m

abbrev pub keys : {V : Type 0} → List (Text × V) → List Text
keys m = map (λ e. e.0) m

module _ (le : Text → Text → Bool) where
  abbrev pub IsBelow : Text → Text → Type 0
  IsBelow k j = (if text_eq k j then false else le k j) ≡ true

  -- Each key is below those behind it.
  abbrev pub IsOrdered : {V : Type 0} → List (Text × V) → Type 0
  IsOrdered [] = Unit
  IsOrdered ((k, v) ∷ m) = All (IsBelow k) (keys m) × IsOrdered m

  -- The value under the key is `f` of the one before: `entry`, or `insert`
  unfoldable pub update : {V : Type 0} → Text → (Option V → V) → List (Text × V) → List (Text × V)
  update key f [] = (key, f none) ∷ []
  update key f ((k, v) ∷ m) =
      let rest = update key f m in
      if text_eq key k
      then (k, f (some v)) ∷ m
      else if le key k
      then (key, f none) ∷ (k, v) ∷ m
      else (k, v) ∷ rest

module _ (le : Text → Text → Bool) (order : TextOrder le) where
  IsBelow-trans : (a b c : Text) → IsBelow le a b → IsBelow le b c → IsBelow le a c
  IsBelow-trans a b c p q =
      let ab = text_eq_iff a b in
      let bc = text_eq_iff b c in
      let ac = text_eq_iff a c in
      let t = order.le_trans a b c in let anti = order.le_antisymm a b in ground arith

  All-IsBelow :
      (key k : Text) (ks : List Text)
      → IsBelow le key k
      → All (IsBelow le k) ks
      → All (IsBelow le key) ks
  All-IsBelow key k [] b h = tt
  All-IsBelow key k (j ∷ ks) b h = (IsBelow-trans key k j b h.0, All-IsBelow key k ks b h.1)

  IsBelow-ne : (k : Text) (ks : List Text) → All (IsBelow le k) ks → All (λ j. k ≢ j) ks
  IsBelow-ne k [] h = tt
  IsBelow-ne k (j ∷ ks) h =
      ((λ e. let t = (text_eq_iff k j).1 e in ground arith), IsBelow-ne k ks h.1)

module _ {V : Type 0} (le : Text → Text → Bool) (order : TextOrder le) where
  lookup_below :
      (key k : Text) (m : List (Text × V))
      → IsBelow le key k
      → All (IsBelow le k) (keys m)
      → lookup key m ≡ none
  unfolding lookup
  lookup_below key k [] b h = refl
  lookup_below key k ((j, v) ∷ m) b h =
      let t = IsBelow-trans le order key k j b h.0 in
      let rest = lookup_below key k m b h.1 in ground arith

  -- Looking up after an update.
  pub lookup-update :
      (j key : Text) (f : Option V → V) (m : List (Text × V))
      → IsOrdered le m
      → lookup j (update le key f m)
        ≡ (if text_eq j key then some (f (lookup key m)) else lookup j m)
  unfolding lookup update
  lookup-update j key f [] h = refl
  lookup-update j key f ((k, v) ∷ m) h = elim (Bool-cases (text_eq key k)) [
    | inl same ↦
        let e : key ≡ k = (text_eq_iff key k).0 same in
        rw (same, e) (elim (Bool-cases (text_eq j k)) [ inl t ↦ rw t refl | inr t ↦ rw t refl ])
    | inr other ↦ elim (Bool-cases (le key k)) [
      | inl below ↦
          let absent = lookup_below key k m (ground arith) h.0 in rw (other, below, absent) refl
      | inr above ↦
          let ih = lookup-update j key f m h.1 in
          rw (other, above)
            (elim (Bool-cases (text_eq j k)) [
              | inl t ↦
                  let e : j ≡ k = (text_eq_iff j k).0 t in
                  let off : text_eq j key ≡ false =
                    let p = text_eq_iff j key in let q = text_eq_iff key k in ground arith in
                  rw (t, off) refl
              | inr t ↦ rw (t, ih) refl
            ])
    ]
  ]

  pub keys-update :
      (P : Text → Type 0) (key : Text) (f : Option V → V) (m : List (Text × V))
      → P key
      → All P (keys m)
      → All P (keys (update le key f m))
  unfolding update
  keys-update P key f [] p h = (p, tt)
  keys-update P key f ((k, v) ∷ m) p h = elim (Bool-cases (text_eq key k)) [
    | inl same ↦ rw same h
    | inr other ↦ elim (Bool-cases (le key k)) [
      | inl below ↦ rw (other, below) (p, h)
      | inr above ↦ rw (other, above) (h.0, keys-update P key f m p h.1)
    ]
  ]

  pub update-IsOrdered :
      (key : Text) (f : Option V → V) (m : List (Text × V))
      → IsOrdered le m
      → IsOrdered le (update le key f m)
  unfolding update
  update-IsOrdered key f [] h = (tt, tt)
  update-IsOrdered key f ((k, v) ∷ m) h = elim (Bool-cases (text_eq key k)) [
    | inl same ↦ rw same h
    | inr other ↦ elim (Bool-cases (le key k)) [
      | inl below ↦
          let b : IsBelow le key k = ground arith in
          rw (other, below) ((b, All-IsBelow le order key k (keys m) b h.0), h)
      | inr above ↦
          let b : IsBelow le k key =
            let t = order.le_total k key in
            let p = text_eq_iff k key in let q = text_eq_iff key k in ground arith in
          rw (other, above) (keys-update (IsBelow le k) key f m b h.0, update-IsOrdered key f m h.1)
    ]
  ]

  pub keys-Distinct : (m : List (Text × V)) → IsOrdered le m → Distinct (keys m)
  keys-Distinct [] h = tt
  keys-Distinct ((k, v) ∷ m) h = (IsBelow-ne le order k (keys m) h.0, keys-Distinct m h.1)
