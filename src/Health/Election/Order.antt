-- ===== src/Health/Election/Order.antt =====
-- The order by which health/health.go prefers one server to another is strict.
use gnatsd.Prelude.{
  Bool, true, false, [], ◌∷◌, ltb, ◌==◌, not, if◌then◌else◌, Bytes, bytes_eq, bytes_eq→eq,
  bytes_eq_refl, ◌≡◌, refl, sym, ◌∙◌, ap, arith, inl, inr, Bool-cases,
}
use gnatsd.Health.Election.{string_lt, less_than_string, ranks_before, agent_loc_less_than}

-- A test that is transitive and never holds of an element and itself.
abbrev pub IsStrict : {A : Type 0} → (A → A → Bool) → Type 0
IsStrict {A = A} r =
    ((i j k : A) → r i j ≡ true → r j k ≡ true → r i k ≡ true) × ((i : A) → r i i ≡ false)

string_lt_trans :
    (i j k : Bytes) → string_lt i j ≡ true → string_lt j k ≡ true → string_lt i k ≡ true
unfolding string_lt
string_lt_trans [] [] k p q = q
string_lt_trans [] (y ∷ j) [] p q = q
string_lt_trans [] (y ∷ j) (z ∷ k) p q = refl
string_lt_trans (x ∷ i) [] k p q = absurd (ground (arith, p))
string_lt_trans (x ∷ i) (y ∷ j) [] p q = q
string_lt_trans (x ∷ i) (y ∷ j) (z ∷ k) p q = ground (arith, p, q, string_lt_trans i j k)

string_lt_irrefl : (i : Bytes) → string_lt i i ≡ false
unfolding string_lt
string_lt_irrefl [] = refl
string_lt_irrefl (x ∷ i) = ground (arith, string_lt_irrefl i)

-- Tests by which keys are compared that are not equal.
abbrev IsKey : {K : Type 0} → (K → K → Bool) → (K → K → Bool) → Type 0
IsKey {K = K} e l =
    ((a b : K) → e a b ≡ true → a ≡ b)
    × ((a : K) → e a a ≡ true)
    × ((a b c : K)
        → e a b ≡ false
        → e b c ≡ false
        → l a b ≡ true
        → l b c ≡ true
        → (e a c ≡ false) × (l a c ≡ true))

number-IsKey : IsKey ◌==◌ ltb
number-IsKey =
    (λ a b p. ground arith, λ a. ground arith, λ a b c p q u v. (ground arith, ground arith))

unequal : (i k : Bytes) → string_lt i k ≡ true → bytes_eq i k ≡ false
unequal i k p = elim (Bool-cases (bytes_eq i k)) [
  | inl e ↦
      absurd (ground (arith, p, ap (string_lt i) (sym (bytes_eq→eq i k e)), string_lt_irrefl i))
  | inr e ↦ e
]

string-later :
    (a b c : Bytes)
    → bytes_eq a b ≡ false
    → bytes_eq b c ≡ false
    → less_than_string a b ≡ true
    → less_than_string b c ≡ true
    → (bytes_eq a c ≡ false) × (less_than_string a c ≡ true)
unfolding less_than_string bytes_eq
string-later [] [] c p q u v = absurd (ground (arith, p))
string-later [] (y ∷ b) c p q u v = absurd (ground (arith, u))
string-later (x ∷ a) b [] p q u v = (refl, refl)
string-later (x ∷ a) [] (z ∷ c) p q u v = absurd (ground (arith, v))
string-later (x ∷ a) (y ∷ b) (z ∷ c) p q u v =
    let w = string_lt_trans (x ∷ a) (y ∷ b) (z ∷ c) u v in (unequal (x ∷ a) (z ∷ c) w, w)

string-IsKey : IsKey bytes_eq less_than_string
string-IsKey = (bytes_eq→eq, bytes_eq_refl, string-later)

-- By a key first, and by another order where the keys are equal.
abbrev by_key :
    {A K : Type 0} → (K → K → Bool) → (K → K → Bool) → (A → K) → (A → A → Bool) → A → A → Bool
by_key e l key r i j = if not (e (key i) (key j)) then l (key i) (key j) else r i j

by_key-IsStrict :
    {A K : Type 0} (e l : K → K → Bool) (key : A → K) (r : A → A → Bool)
    → IsKey e l
    → IsStrict r
    → IsStrict (by_key e l key r)
by_key-IsStrict e l key r (same, self, later) (trans, irrefl) = (
  λ i j k p q. elim (Bool-cases (e (key i) (key j))) [
    | inl a ↦ elim (Bool-cases (e (key j) (key k))) [
      | inl b ↦
          let c : e (key i) (key k) ≡ true = ap (λ x. e x (key k)) (same (key i) (key j) a) ∙ b in
          ground (arith, p, q, a, b, c, trans i j k)
      | inr b ↦
          let c = ap (λ x. e x (key k)) (same (key i) (key j) a) in
          let d = ap (λ x. l x (key k)) (same (key i) (key j) a) in ground (arith, p, q, a, b, c, d)
    ]
    | inr a ↦ elim (Bool-cases (e (key j) (key k))) [
      | inl b ↦
          let c = ap (e (key i)) (same (key j) (key k) b) in
          let d = ap (l (key i)) (same (key j) (key k) b) in ground (arith, p, q, a, b, c, d)
      | inr b ↦
          let u : l (key i) (key j) ≡ true = ground (arith, p, a) in
          let v : l (key j) (key k) ≡ true = ground (arith, q, b) in
          let (c, d) = later (key i) (key j) (key k) a b u v in ground (arith, c, d)
    ]
  ],
  λ i. ground (arith, self (key i), irrefl i),
)

ranks_before-IsStrict : IsStrict ranks_before
unfolding ranks_before
ranks_before-IsStrict =
    by_key-IsStrict ◌==◌ ltb (λ i. i.rank) _ number-IsKey
      (by_key-IsStrict bytes_eq less_than_string (λ i. i.id) _ string-IsKey
        (by_key-IsStrict bytes_eq less_than_string (λ i. i.nats_host) _ string-IsKey
          (by_key-IsStrict ◌==◌ ltb (λ i. i.nats_client_port) _ number-IsKey
            (by_key-IsStrict ◌==◌ ltb (λ i. i.pid) (λ i j. ltb j.lease_expires i.lease_expires)
              number-IsKey (λ i j k p q. ground (arith, p, q), λ i. ground arith)))))

pub agent_loc_less_than-IsStrict : IsStrict agent_loc_less_than
unfolding agent_loc_less_than
agent_loc_less_than-IsStrict = (
  λ i j k p q. ground (arith, p, q, ranks_before-IsStrict.0 i j k),
  λ i. ground (arith, ranks_before-IsStrict.1 i),
)
