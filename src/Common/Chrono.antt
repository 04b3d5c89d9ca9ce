-- ===== src/Common/Chrono.antt =====
-- What the services use of `chrono::DateTime`, a library that is not in the repository. A date with
-- time is a value of a type `T`; time zones do not enter, since chrono compares instants.
use mathlib.Core.Path.{◌≡◌}
use mathlib.Core.Logic.{◌↔◌, ◌⊎◌}
use mathlib.Core.Bool.{Bool, true, not}
use Prim.Native.String.{String}
use mathlib.Core.Option.{Option, none, some}
use text.Mathlib.Text.{◌==◌ as str_eq}
use Prim.Native.Nat.{ℕ, ◌+◌, ◌-◌, ◌*◌, ◌/◌}
use native.Mathlib.Omega.{arith}
use e_commerce.Common.Tests.{leb, ltb, ◌==◌, if◌then◌else◌}
use e_commerce.Common.Int.{ℤ, pos, negsuc}

pub record Chrono {ℓ} (T : Type ℓ) : Type ℓ where
  -- `a <= b`, `a < b` and `a == b`
  pub le : T → T → Bool
  pub lt : T → T → Bool
  pub eq : T → T → Bool
  -- `t.trunc_subsecs(0)`
  pub trunc_secs : T → T
  -- `(a - b).num_seconds()`
  pub secs_between : T → T → ℤ
  -- `t + Duration::seconds(n)` and `t + Duration::hours(n)`
  pub add_secs : T → ℕ → T
  pub add_hours : T → ℕ → T
  -- `t - Duration::seconds(n)`
  pub sub_secs : T → ℕ → T
  -- `DateTime::parse_from_rfc3339`, without the text of its error, and `to_rfc3339`
  pub parse_rfc3339 : String → Option T
  pub to_rfc3339 : T → String
  -- `t.duration_trunc(Duration::seconds(n))`, where it succeeds
  pub trunc_to : T → ℕ → T

-- The order of instants is linear, and its tests agree.
pub record IsLinear {ℓ} (T : Type ℓ) ⦃c : Chrono T⦄ : Type ℓ where
  pub le_total : (a b : T) → (c.le a b ≡ true) ⊎ (c.le b a ≡ true)
  pub le_trans : (a b d : T) → c.le a b ≡ true → c.le b d ≡ true → c.le a d ≡ true
  pub lt-not-le : (a b : T) → c.lt a b ≡ not (c.le b a)
  pub eq_iff : (a b : T) → (c.eq a b ≡ true) ↔ (a ≡ b)

-- The interface can be met: instants in milliseconds after some epoch.
abbrev pub Millis : Type 0
Millis = ℕ

instance abbrev pub millis_chrono : Chrono Millis
millis_chrono = record {
  le = leb;
  lt = ltb;
  eq = ◌==◌;
  trunc_secs = λ t. t / 1000 * 1000;
  secs_between = λ a b.
      if leb b a
      then pos ((a - b) / 1000)
      else if ltb (b - a) 1000
      then pos 0
      else negsuc ((b - a) / 1000 - 1);
  add_secs = λ t n. t + n * 1000;
  add_hours = λ t n. t + n * 3_600_000;
  sub_secs = λ t n. t - n * 1000;
  parse_rfc3339 = λ s. if str_eq s "noon" then some 43_200_000 else none;
  to_rfc3339 = λ t. "noon";
  trunc_to = λ t n. t / (n * 1000) * (n * 1000);
}

pub Millis-IsLinear : IsLinear Millis
Millis-IsLinear = ground arith
