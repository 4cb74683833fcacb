-- ===== src/Health/Verdict.antt =====
-- What a report of a prober is to say, without regard to how it is made.
use nise_and_go.Common.{
  ◌↔◌, subst, ◌∙◌, sym, ℕ, zero, suc, ◌<◌, ◌≡◌, refl, true, false, List, [], ◌∷◌, Option, none,
  some, arith, length, get_elem?, if◌then◌else◌, ◌==◌,
}
use nise_and_go.Common.Clock.{Duration}
use nise_and_go.Common.Text.{codes, all_of}
use nise_and_go.Health.{
  Check, Ending, returned, expired, Prober, Report, Result, result_of, is_healthy,
}

-- What check `i` reported last, after an earlier report.
abbrev pub report_of : ℕ → Option Ending → List (ℕ × Ending) → Option Ending
report_of i before [] = before
report_of i before ((j, e) ∷ rs) = report_of i (if j == i then some e else before) rs

pub get_elem?-lt : {A : Type 0} (l : List A) (i : ℕ) (a : A) → get_elem? l i ≡ some a → i < length l
get_elem?-lt [] i a h = cc
get_elem?-lt (x ∷ l) zero a h = omega arith
get_elem?-lt (x ∷ l) (suc i) a h = omega (arith, get_elem?-lt l i a h)

-- What a report says of a check by how it ended before the timer, if it did.
abbrev pub verdict_on : Prober → Check → Option Ending → Result
verdict_on p c none = record {
  name = c;
  healthy = false;
  error = codes "check timed out";
  duration = p.overall_timeout;
}
verdict_on p c (some expired) = record {
  name = c;
  healthy = false;
  error = codes "check timed out";
  duration = p.check_timeout;
}
verdict_on p c (some (returned (some e) d)) = record {
  name = c;
  healthy = false;
  error = e;
  duration = d;
}
verdict_on p c (some (returned none d)) = record {
  name = c;
  healthy = true;
  error = [];
  duration = d;
}

pub result_of-verdict_on :
    (p : Prober) (c : Check) (o : Option Ending) → result_of p c o ≡ verdict_on p c o
unfolding result_of
result_of-verdict_on p c none = refl
result_of-verdict_on p c (some expired) = refl
result_of-verdict_on p c (some (returned (some e) d)) = refl
result_of-verdict_on p c (some (returned none d)) = refl

-- A check succeeded: it returned no error, and in time.
abbrev pub Succeeded : Option Ending → Type 0
Succeeded o = (d : Duration) × (o ≡ some (returned none d))

verdict_on-Succeeded :
    (p : Prober) (c : Check) (o : Option Ending) → (verdict_on p c o).healthy ≡ true → Succeeded o
verdict_on-Succeeded p c none h = cc
verdict_on-Succeeded p c (some expired) h = cc
verdict_on-Succeeded p c (some (returned (some e) d)) h = cc
verdict_on-Succeeded p c (some (returned none d)) h = (d, refl)

all_of-get :
    (rs : List Result) (i : ℕ) (r : Result)
    → all_of is_healthy rs ≡ true
    → get_elem? rs i ≡ some r
    → r.healthy ≡ true
unfolding all_of
all_of-get [] i r h g = cc
all_of-get (x ∷ rs) zero r h g =
    let same : x ≡ r = cc g in subst (λ (y : Result). y.healthy ≡ true) same (ground (arith, h))
all_of-get (x ∷ rs) (suc i) r h g = all_of-get rs i r (ground (arith, h)) g

get-all_of :
    (rs : List Result)
    → ((i : ℕ) (r : Result) → get_elem? rs i ≡ some r → r.healthy ≡ true)
    → all_of is_healthy rs ≡ true
unfolding all_of
get-all_of [] f = refl
get-all_of (x ∷ rs) f = rw (f zero x refl) (get-all_of rs λ i r g. f (suc i) r g)

get-some : {A : Type 0} (l : List A) (i : ℕ) → i < length l → (a : A) × (get_elem? l i ≡ some a)
get-some [] i h = absurd (omega (arith, h))
get-some (x ∷ l) zero h = (x, refl)
get-some (x ∷ l) (suc i) h = get-some l i (omega (arith, h))

-- A report with one result for every check, by how it ended, and the verdict on all.
abbrev pub Promised : Prober → List (ℕ × Ending) → Report → Type 0
Promised p rs report =
    (length report.results ≡ length p.checks)
    × ((i : ℕ) (c : Check)
        → get_elem? p.checks i ≡ some c
        → get_elem? report.results i ≡ some (verdict_on p c (report_of i none rs)))
    × (report.healthy ≡ all_of is_healthy report.results)

-- The verdict of such a report is good exactly if every check succeeded.
pub Promised-healthy :
    (p : Prober) (rs : List (ℕ × Ending)) (report : Report)
    → Promised p rs report
    → (report.healthy ≡ true)
      ↔ ((i : ℕ) (c : Check) → get_elem? p.checks i ≡ some c → Succeeded (report_of i none rs))
Promised-healthy p rs report (len, each, verdict) = (
  λ h i c g. verdict_on-Succeeded p c (report_of i none rs) (
      all_of-get report.results i (verdict_on p c (report_of i none rs)) (sym verdict ∙ h)
        (each i c g)),
  λ f.
      verdict
      ∙ get-all_of report.results λ i r g.
        let (c, there) =
          get-some p.checks i (omega (arith, len, get_elem?-lt report.results i r g)) in
        let (d, good) = f i c there in
        let found : some r ≡ some (verdict_on p c (report_of i none rs)) = sym g ∙ each i c there in
        let same : r ≡ verdict_on p c (report_of i none rs) = cc found in rw (same, good) refl,
)
