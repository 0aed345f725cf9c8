-- ===== src/Prelude/Lists.antt =====
-- Lists measured and indexed by native numbers, under the library's names: the C arrays of the
-- program. A write out of bounds changes nothing.
use Prim.Native.Nat.{ℕ, zero, suc, ◌+◌, ◌-◌, ◌≤◌, ◌<◌, min}
use mathlib.Core.Path.{◌≡◌, refl, ap}
use mathlib.Core.Logic.{◌≢◌}
use mathlib.Core.List.{List, [], ◌∷◌, ◌++◌, map}
use mathlib.Core.Option.{Option, none, some}
use native.Mathlib.Omega.{arith}

module _ {ℓ} {A : Type ℓ} where
  abbrev pub length : List A → ℕ
  length [] = 0
  length (x ∷ xs) = suc (length xs)

  abbrev pub get_elem? : List A → ℕ → Option A
  get_elem? [] i = none
  get_elem? (x ∷ xs) zero = some x
  get_elem? (x ∷ xs) (suc i) = get_elem? xs i

  abbrev pub get_or : List A → ℕ → A → A
  get_or [] i d = d
  get_or (x ∷ xs) zero d = x
  get_or (x ∷ xs) (suc i) d = get_or xs i d

  abbrev pub set : List A → ℕ → A → List A
  set [] i v = []
  set (x ∷ xs) zero v = v ∷ xs
  set (x ∷ xs) (suc i) v = x ∷ set xs i v

  abbrev pub take : ℕ → List A → List A
  take zero xs = []
  take (suc n) [] = []
  take (suc n) (x ∷ xs) = x ∷ take n xs

  abbrev pub drop : ℕ → List A → List A
  drop zero xs = xs
  drop (suc n) [] = []
  drop (suc n) (x ∷ xs) = drop n xs

  abbrev pub replicate : ℕ → A → List A
  replicate zero a = []
  replicate (suc n) a = a ∷ replicate n a

  -- A predicate of every element.
  abbrev pub All {κ} : (A → Type κ) → List A → Type κ
  All P [] = Unit
  All P (x ∷ xs) = P x × All P xs

module _ {ℓ} {A : Type ℓ} where
  pub length-append : (xs ys : List A) → length (xs ++ ys) ≡ length xs + length ys
  length-append [] ys = omega arith
  length-append (x ∷ xs) ys = omega (arith, length-append xs ys)

  pub length-set : (xs : List A) (i : ℕ) (v : A) → length (set xs i v) ≡ length xs
  length-set [] i v = refl
  length-set (x ∷ xs) zero v = refl
  length-set (x ∷ xs) (suc i) v = ap suc (length-set xs i v)

  pub length-take : (n : ℕ) (xs : List A) → length (take n xs) ≡ min n (length xs)
  length-take zero xs = omega arith
  length-take (suc n) [] = omega arith
  length-take (suc n) (x ∷ xs) = omega (arith, length-take n xs)

  pub length-drop : (n : ℕ) (xs : List A) → length (drop n xs) ≡ length xs - n
  length-drop zero xs = omega arith
  length-drop (suc n) [] = omega arith
  length-drop (suc n) (x ∷ xs) = omega (arith, length-drop n xs)

  pub get_or-drop :
      (n : ℕ) (xs : List A) (k : ℕ) (d : A) → get_or (drop n xs) k d ≡ get_or xs (n + k) d
  get_or-drop zero xs k d = let e : 0 + k ≡ k = omega arith in rw e
  get_or-drop (suc n) [] k d = refl
  get_or-drop (suc n) (x ∷ xs) k d =
      let e : suc n + k ≡ suc (n + k) = omega arith in rw e (get_or-drop n xs k d)

  pub get_or-take :
      (n : ℕ) (xs : List A) (k : ℕ) (d : A) → k < n → get_or (take n xs) k d ≡ get_or xs k d
  get_or-take zero xs k d h = elim h [ ]
  get_or-take (suc n) [] k d h = refl
  get_or-take (suc n) (x ∷ xs) zero d h = refl
  get_or-take (suc n) (x ∷ xs) (suc k) d h = get_or-take n xs k d (omega arith)

  pub get_or-append :
      (xs ys : List A) (k : ℕ) (d : A) → k < length xs → get_or (xs ++ ys) k d ≡ get_or xs k d
  get_or-append [] ys k d h = elim h [ ]
  get_or-append (x ∷ xs) ys zero d h = refl
  get_or-append (x ∷ xs) ys (suc k) d h = get_or-append xs ys k d (omega arith)

  pub length-replicate : (n : ℕ) (a : A) → length (replicate n a) ≡ n
  length-replicate zero a = refl
  length-replicate (suc n) a = ap suc (length-replicate n a)

  pub take-append-drop : (n : ℕ) (xs : List A) → take n xs ++ drop n xs ≡ xs
  take-append-drop zero xs = refl
  take-append-drop (suc n) [] = refl
  take-append-drop (suc n) (x ∷ xs) = ap (λ l. x ∷ l) (take-append-drop n xs)

  pub drop-nil : (n : ℕ) → drop {A = A} n [] ≡ []
  drop-nil zero = refl
  drop-nil (suc n) = refl

  pub take-nil : (n : ℕ) → take {A = A} n [] ≡ []
  take-nil zero = refl
  take-nil (suc n) = refl

  pub drop-drop : (a b : ℕ) (xs : List A) → drop a (drop b xs) ≡ drop (b + a) xs
  drop-drop a zero xs = let e : 0 + a ≡ a = omega arith in rw e
  drop-drop a (suc b) [] = rw (drop-nil a, drop-nil (suc b + a))
  drop-drop a (suc b) (x ∷ xs) =
      let e : suc b + a ≡ suc (b + a) = omega arith in rw e (drop-drop a b xs)

  pub drop-append : (xs ys : List A) (m : ℕ) → drop (length xs + m) (xs ++ ys) ≡ drop m ys
  drop-append [] ys m = let e : 0 + m ≡ m = omega arith in rw e
  drop-append (x ∷ xs) ys m =
      let e : suc (length xs) + m ≡ suc (length xs + m) = omega arith in rw e (drop-append xs ys m)

  pub drop-append_self : (xs ys : List A) → drop (length xs) (xs ++ ys) ≡ ys
  drop-append_self [] ys = refl
  drop-append_self (x ∷ xs) ys = drop-append_self xs ys

  pub drop-append_le :
      (m : ℕ) (xs ys : List A) → m ≤ length xs → drop m (xs ++ ys) ≡ drop m xs ++ ys
  drop-append_le zero xs ys h = refl
  drop-append_le (suc m) [] ys h = absurd (omega arith)
  drop-append_le (suc m) (x ∷ xs) ys h = drop-append_le m xs ys (omega arith)

  pub take-append : (xs ys : List A) (m : ℕ) → take (length xs + m) (xs ++ ys) ≡ xs ++ take m ys
  take-append [] ys m = let e : 0 + m ≡ m = omega arith in rw e
  take-append (x ∷ xs) ys m =
      let e : suc (length xs) + m ≡ suc (length xs + m) = omega arith in
      rw e (ap (λ l. x ∷ l) (take-append xs ys m))

  pub take-append_le : (m : ℕ) (xs ys : List A) → m ≤ length xs → take m (xs ++ ys) ≡ take m xs
  take-append_le zero xs ys h = refl
  take-append_le (suc m) [] ys h = absurd (omega arith)
  take-append_le (suc m) (x ∷ xs) ys h = ap (λ l. x ∷ l) (take-append_le m xs ys (omega arith))

  pub take-add : (a b : ℕ) (xs : List A) → take (a + b) xs ≡ take a xs ++ take b (drop a xs)
  take-add zero b xs = let e : 0 + b ≡ b = omega arith in rw e
  take-add (suc a) b [] = let e : suc a + b ≡ suc (a + b) = omega arith in rw (e, take-nil b)
  take-add (suc a) b (x ∷ xs) =
      let e : suc a + b ≡ suc (a + b) = omega arith in rw e (ap (λ l. x ∷ l) (take-add a b xs))

  pub drop_all : (n : ℕ) (xs : List A) → length xs ≤ n → drop n xs ≡ []
  drop_all zero [] h = refl
  drop_all zero (x ∷ xs) h = absurd (omega arith)
  drop_all (suc n) [] h = refl
  drop_all (suc n) (x ∷ xs) h = drop_all n xs (omega arith)

  pub take_all : (n : ℕ) (xs : List A) → length xs ≤ n → take n xs ≡ xs
  take_all zero [] h = refl
  take_all zero (x ∷ xs) h = absurd (omega arith)
  take_all (suc n) [] h = refl
  take_all (suc n) (x ∷ xs) h = ap (λ l. x ∷ l) (take_all n xs (omega arith))

  pub get_elem?-set_self :
      (xs : List A) (i : ℕ) (v : A) → i < length xs → get_elem? (set xs i v) i ≡ some v
  get_elem?-set_self [] i v h = elim h [ ]
  get_elem?-set_self (x ∷ xs) zero v h = refl
  get_elem?-set_self (x ∷ xs) (suc i) v h = get_elem?-set_self xs i v (omega arith)

  pub get_elem?-set_ne :
      (xs : List A) (i j : ℕ) (v : A) → i ≢ j → get_elem? (set xs i v) j ≡ get_elem? xs j
  get_elem?-set_ne [] i j v h = refl
  get_elem?-set_ne (x ∷ xs) zero zero v h = absurd (h refl)
  get_elem?-set_ne (x ∷ xs) zero (suc j) v h = refl
  get_elem?-set_ne (x ∷ xs) (suc i) zero v h = refl
  get_elem?-set_ne (x ∷ xs) (suc i) (suc j) v h = get_elem?-set_ne xs i j v (λ e. h (ap suc e))

  pub set-set : (xs : List A) (i : ℕ) (v w : A) → set (set xs i v) i w ≡ set xs i w
  set-set [] i v w = refl
  set-set (x ∷ xs) zero v w = refl
  set-set (x ∷ xs) (suc i) v w = ap (λ l. x ∷ l) (set-set xs i v w)

  pub get_elem?-lt : (xs : List A) (i : ℕ) {a : A} → get_elem? xs i ≡ some a → i < length xs
  get_elem?-lt [] i h = absurd (cc)
  get_elem?-lt (x ∷ xs) zero h = omega arith
  get_elem?-lt (x ∷ xs) (suc i) h = omega (arith, get_elem?-lt xs i h)

  pub get_elem?_of_lt : (xs : List A) (i : ℕ) → i < length xs → (a : A) × (get_elem? xs i ≡ some a)
  get_elem?_of_lt [] i h = elim h [ ]
  get_elem?_of_lt (x ∷ xs) zero h = (x, refl)
  get_elem?_of_lt (x ∷ xs) (suc i) h = get_elem?_of_lt xs i (omega arith)

  pub All-get {κ} :
      (P : A → Type κ) (xs : List A) (i : ℕ) {a : A} → All P xs → get_elem? xs i ≡ some a → P a
  All-get P [] i h e = absurd (cc)
  All-get P (x ∷ xs) zero h e = rw (← some_inj e) h.0
    where
      some_inj : {a b : A} → some a ≡ some b → a ≡ b
      some_inj q = cc
  All-get P (x ∷ xs) (suc i) h e = All-get P xs i h.1 e

  pub All-set {κ} :
      (P : A → Type κ) (xs : List A) (i : ℕ) (v : A) → All P xs → P v → All P (set xs i v)
  All-set P [] i v h p = tt
  All-set P (x ∷ xs) zero v h p = (p, h.1)
  All-set P (x ∷ xs) (suc i) v h p = (h.0, All-set P xs i v h.1 p)

  -- How much a weight adds up to over a list, and how a write changes it.
  unfoldable pub total : (A → ℕ) → List A → ℕ
  total w [] = 0
  total w (x ∷ xs) = w x + total w xs

  pub total-set :
      (w : A → ℕ) (xs : List A) (i : ℕ) (v a : A)
      → get_elem? xs i ≡ some a
      → total w (set xs i v) + w a ≡ total w xs + w v
  unfolding total
  total-set w [] i v a h = absurd (cc)
  total-set w (x ∷ xs) zero v a h = ground arith
  total-set w (x ∷ xs) (suc i) v a h = omega (arith, total-set w xs i v a h)

  pub total-le : (w : A → ℕ) → ((a : A) → w a ≤ 1) → (xs : List A) → total w xs ≤ length xs
  unfolding total
  total-le w small [] = omega arith
  total-le w small (x ∷ xs) = omega (arith, small x, total-le w small xs)

  pub total-add-le :
      (w u : A → ℕ)
      → ((a : A) → w a + u a ≤ 1)
      → (xs : List A) → total w xs + total u xs ≤ length xs
  unfolding total
  total-add-le w u small [] = omega arith
  total-add-le w u small (x ∷ xs) = omega (arith, small x, total-add-le w u small xs)

  pub weight-le-total :
      (w : A → ℕ) (xs : List A) (i : ℕ) {a : A} → get_elem? xs i ≡ some a → w a ≤ total w xs
  unfolding total
  weight-le-total w [] i e = absurd (cc)
  weight-le-total w (x ∷ xs) zero e = ground arith
  weight-le-total w (x ∷ xs) (suc i) e = omega (arith, weight-le-total w xs i e)

  pub total-drop :
      (w : A → ℕ) (xs : List A) (i : ℕ) {a : A}
      → get_elem? xs i ≡ some a
      → total w (drop i xs) ≡ w a + total w (drop (suc i) xs)
  unfolding total
  total-drop w [] i e = absurd (cc)
  total-drop w (x ∷ xs) zero e = ground arith
  total-drop w (x ∷ xs) (suc i) e = total-drop w xs i e

  pub total-nil : (w : A → ℕ) → total w [] ≡ 0
  unfolding total
  total-nil w = refl

module _ {ℓ κ} {A : Type ℓ} {B : Type κ} where
  -- A write that a function does not see.
  pub map-set_same :
      (f : A → B) (xs : List A) (i : ℕ) (v : A) {a : A}
      → get_elem? xs i ≡ some a
      → f v ≡ f a
      → map f (set xs i v) ≡ map f xs
  map-set_same f [] i v e h = refl
  map-set_same f (x ∷ xs) zero v e h = cc
  map-set_same f (x ∷ xs) (suc i) v e h = ap (λ l. f x ∷ l) (map-set_same f xs i v e h)

  pub length-map : (f : A → B) (xs : List A) → length (map f xs) ≡ length xs
  length-map f [] = refl
  length-map f (x ∷ xs) = ap suc (length-map f xs)

  pub get_elem?-map :
      (f : A → B) (xs : List A) (i : ℕ) {a : A}
      → get_elem? xs i ≡ some a
      → get_elem? (map f xs) i ≡ some (f a)
  get_elem?-map f [] i e = absurd (cc)
  get_elem?-map f (x ∷ xs) zero e = cc
  get_elem?-map f (x ∷ xs) (suc i) e = get_elem?-map f xs i e
