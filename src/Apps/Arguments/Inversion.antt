-- ===== src/Apps/Arguments/Inversion.antt =====
-- What is known when a step of an option loop in apps succeeds.
use cpp_high_performance_bin.Base.{
  ℕ, ◌<◌, ◌^◌, ◌≡◌, ◌≢◌, refl, subst, Bool, true, false, if◌then◌else◌, Option, none, some, Text,
}
use cpp_high_performance_bin.Errors.{Error, Result, ok, err, ensure}
use cpp_high_performance_bin.Apps.Arguments.{
  parse_u64, require_value, checked, ◌>>=◌, parse_u64_lem,
}

pub if_keeps :
    {A : Type 0} (P : A → Type 0) (b : Bool) (x y : Result A) (r : A)
    → (x ≡ ok r → P r)
    → (y ≡ ok r → P r)
    → (if b then x else y) ≡ ok r
    → P r
if_keeps P true x y r yes_ no_ h = yes_ h
if_keeps P false x y r yes_ no_ h = no_ h

pub bind_ok :
    {A B : Type 0} (m : Result A) (f : A → Result B) (r : B)
    → (m >>= f) ≡ ok r
    → (a : A) × (m ≡ ok a) × (f a ≡ ok r)
bind_ok (ok a) f r h = (a, refl, h)
bind_ok (err e) f r h = cc h

pub checked_ok :
    {A : Type 0} (o : Option A) (name : Text) (a : A) → checked o name ≡ ok a → o ≡ some a
unfolding checked
checked_ok none name a h = cc h
checked_ok (some b) name a h = cc h

pub ok_inj : {A : Type 0} {a b : A} → ok a ≡ ok b → a ≡ b
ok_inj h = cc h

pub err_ok : {A : Type 0} {e : Error} {a : A} → ◌≢◌ {A = Result A} (err e) (ok a)
err_ok h = cc h

pub parse_u64-lt : (text : Text) (n : ℕ) → parse_u64 text ≡ some n → n < 2 ^ 64
parse_u64-lt text n h = ((parse_u64_lem text n).0 h).3

-- An option with a number that `store` puts into the options.
pub number_keeps :
    {O : Type 0} (P : O → Type 0) (next : Option Text) (name : Text) (parse : Text → Option ℕ)
    (store : ℕ → O) (r : O)
    → ((text : Text) (n : ℕ) → parse text ≡ some n → P (store n))
    → (require_value next name >>= (λ text. checked (parse text) name >>= (λ n. ok (store n))))
      ≡ ok r
    → P r
number_keeps P next name parse store r keep h =
    let (text, _, h') = bind_ok (require_value next name) _ r h in
    let (n, found, stored) = bind_ok (checked (parse text) name) _ r h' in
    let same : store n ≡ r = cc stored in
    subst P same (keep text n (checked_ok (parse text) name n found))

pub ensure_ok : (b : Bool) (x : Error) {u : Unit {0}} → ensure b x ≡ ok u → b ≡ true
ensure_ok true x h = refl
ensure_ok false x h = cc h
