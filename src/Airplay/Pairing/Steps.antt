-- ===== src/Airplay/Pairing/Steps.antt =====
-- How a sequence of steps on the stream succeeds.
use openplay.Prelude.{
  none, some, ok, err, refl, ℕ, Option, Result, ◌≡◌, ok_or, List, ap, length, arith, ◌∙◌,
}
use openplay.Airplay.Stream.{TcpStream}
use openplay.Airplay.Pairing.{HapError, Hap, continue_on, array_of}

module _ {ℓ κ} {A : Type ℓ} {B : Type κ} where
  -- A step that succeeded hands its value and its stream on.
  pub then_ok :
      {x : TcpStream × Result A HapError} {r : TcpStream × Result B HapError} (f : A → Hap B)
      (s : TcpStream) (a : A)
      → x ≡ (s, ok a)
      → f a s ≡ r
      → continue_on x f ≡ r
  unfolding continue_on
  then_ok {x} {r} f s a e next = ap (λ y. continue_on y f) e ∙ next

module _ {A : Type 0} {B : Type 0} {R : Type 0} where
  -- When a sequence succeeds, its first step did, and so did the rest on what that step left.
  pub step_then :
      {s' : TcpStream} {b : B} (x : TcpStream × Result A HapError) (f : A → Hap B)
      → continue_on x f ≡ (s', ok b)
      → ((s : TcpStream) (a : A) → x ≡ (s, ok a) → f a s ≡ (s', ok b) → R)
      → R
  unfolding continue_on
  step_then (s, ok a) f h k = k s a refl h
  step_then (s, err e) f h k = absurd (ground arith)

  -- The same for a step that does not touch the stream.
  pub value_then :
      {s' : TcpStream} {b : B} (s : TcpStream) (r : Result A HapError) (f : A → Hap B)
      → continue_on (s, r) f ≡ (s', ok b)
      → ((a : A) → r ≡ ok a → f a s ≡ (s', ok b) → R)
      → R
  unfolding continue_on
  value_then s (ok a) f h k = k a refl h
  value_then s (err e) f h k = absurd (ground arith)

pub array_of-ok :
    (n : ℕ) (bytes : List ℕ) (e : HapError) {array : List ℕ}
    → array_of n bytes e ≡ ok array
    → (bytes ≡ array) × (length array ≡ n)
unfolding array_of
array_of-ok n bytes e {array} h = (same, ground (arith, ap length same))
  where
    same : bytes ≡ array
    same = ground arith

pub ok_or-ok {ℓ} :
    {A : Type ℓ} {a : A} (o : Option A) (e : HapError) → ok_or o e ≡ ok a → o ≡ some a
ok_or-ok none e h = absurd (ground arith)
ok_or-ok (some b) e h = ground arith

pub pure-ok :
    {A : Type 0} {s s' : TcpStream} {a b : A}
    → ◌≡◌ {A = TcpStream × Result A HapError} (s, ok a) (s', ok b)
    → a ≡ b
pure-ok h = ground arith
