-- ===== src/Handler/Ranges.antt =====
-- The bytes that a list of requests to the handler is about.
use tcmu_runner.Prelude.{ℕ, zero, suc, ◌+◌, ◌≡◌, ap, refl, List, [], ◌∷◌, ◌++◌, arith}

-- The offset and the length of a request.
pub record Request : Type 0 where
  pub offset : ℕ
  pub length : ℕ

-- `n` numbers from `a` on.
unfoldable pub interval : ℕ → ℕ → List ℕ
interval a zero = []
interval a (suc n) = a ∷ interval (suc a) n

-- The bytes of the requests, in the order in which they are named.
unfoldable pub bytes_of : List Request → List ℕ
unfolding interval
bytes_of [] = []
bytes_of (r ∷ rs) = interval r.offset r.length ++ bytes_of rs

pub interval-append : (a m n : ℕ) → interval a m ++ interval (a + m) n ≡ interval a (m + n)
unfolding interval
interval-append a zero n =
    let e : a + 0 ≡ a = omega arith in let f : 0 + n ≡ n = omega arith in rw (e, f)
interval-append a (suc m) n =
    let e : a + suc m ≡ suc a + m = omega arith in
    let f : suc m + n ≡ suc (m + n) = omega arith in
    rw (e, f) (ap (λ l. a ∷ l) (interval-append (suc a) m n))

-- A request in front of requests that go on where it ends.
pub bytes_of-cons :
    (a l n : ℕ) (rs : List Request)
    → bytes_of rs ≡ interval (a + l) n
    → bytes_of (record { offset = a; length = l } ∷ rs) ≡ interval a (l + n)
unfolding bytes_of
bytes_of-cons a l n rs h = rw h (interval-append a l n)

pub bytes_of-one : (a l : ℕ) → bytes_of (record { offset = a; length = l } ∷ []) ≡ interval a l
unfolding bytes_of
bytes_of-one a l = append_nil (interval a l)
  where
    append_nil : (l : List ℕ) → l ++ [] ≡ l
    append_nil [] = refl
    append_nil (x ∷ xs) = ap (λ t. x ∷ t) (append_nil xs)
