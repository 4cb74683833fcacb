-- ===== src/Password/Params.antt =====
-- runtime/password/params.go and benchmark.go: parameter sets, and the search for the strongest one that
-- a machine evaluates in time. How long an evaluation takes is a parameter.
pub mod Search
use nise_and_go.Common.{
  ℕ, zero, suc, ◌+◌, ◌-◌, ◌*◌, ◌/◌, Bool, true, false, ◌&&◌, ◌||◌, not, List, [], ◌∷◌, ◌++◌, Option,
  none, some, ltb, leb, ◌==◌, if◌then◌else◌, length, get_or,
}
use nise_and_go.Common.Int.{ℤ, pos, ltb_ℤ}
use nise_and_go.Common.Clock.{Duration, second}
use nise_and_go.Common.Result.{Result, ok, err, ◌>>=◌, ◌>>◌, fail_if}

abbrev pub min_memory_kib : ℕ
min_memory_kib = 19 * 1024

abbrev pub max_memory_kib : ℕ
max_memory_kib = 4 * 1024 * 1024

abbrev pub min_iterations : ℕ
min_iterations = 1

abbrev pub max_iterations : ℕ
max_iterations = 64

abbrev pub min_parallelism : ℕ
min_parallelism = 1

abbrev pub max_parallelism : ℕ
max_parallelism = 64

abbrev pub max_version : ℕ
max_version = 1000

abbrev pub salt_bytes : ℕ
salt_bytes = 16

abbrev pub key_bytes : ℕ
key_bytes = 32

abbrev pub min_tag_bytes : ℕ
min_tag_bytes = 16

abbrev pub max_tag_bytes : ℕ
max_tag_bytes = 1024

abbrev pub max_salt_bytes : ℕ
max_salt_bytes = 1024

abbrev pub max_password_bytes : ℕ
max_password_bytes = 1024

pub data PasswordError : Type 0 where
  version_bounds : ℤ → PasswordError
  memory_bounds iterations_bounds parallelism_bounds : ℕ → PasswordError
  not_constructed : PasswordError
  duplicate_version : ℤ → PasswordError
  duplicate_cost : ℤ → ℤ → PasswordError
  password_length : ℕ → PasswordError
  random_failed : PasswordError
  encoding_fields encoding_version encoding_cost encoding_parallelism : PasswordError
  encoding_salt encoding_tag : PasswordError
  algorithm_name algorithm_version : PasswordError
  unsupported_params : ℕ → ℕ → ℕ → PasswordError
  samples_bounds target_bounds unreachable_target : PasswordError

-- The costs are unsigned machine integers, on which no arithmetic is done.
pub record Params : Type 0 where
  pub version : ℤ
  pub memory_kib : ℕ
  pub iterations : ℕ
  pub parallelism : ℕ

unfoldable pub new_params : ℤ → ℕ → ℕ → ℕ → Result PasswordError Params
new_params version memory iterations parallelism =
    if ltb_ℤ version (pos 1) || ltb_ℤ (pos max_version) version
    then err (version_bounds version)
    else if ltb memory min_memory_kib || ltb max_memory_kib memory
    then err (memory_bounds memory)
    else if ltb iterations min_iterations || ltb max_iterations iterations
    then err (iterations_bounds iterations)
    else if ltb parallelism min_parallelism || ltb max_parallelism parallelism
    then err (parallelism_bounds parallelism)
    else ok (record {
      version = version;
      memory_kib = memory;
      iterations = iterations;
      parallelism = parallelism;
    })

abbrev pub default_params : Params
default_params = record { version = pos 1; memory_kib = 47104; iterations = 3; parallelism = 1 }

abbrev pub same_version : ℤ → ℤ → Bool
same_version a b = not (ltb_ℤ a b || ltb_ℤ b a)

unfoldable pub is_zero_params : Params → Bool
is_zero_params p = same_version p.version (pos 0)

unfoldable pub same_cost : Params → Params → Bool
same_cost p q =
    p.memory_kib == q.memory_kib && p.iterations == q.iterations && p.parallelism == q.parallelism

-- The inner loop of `distinct`.
unfoldable pub distinct_from : Params → List Params → Option PasswordError
unfolding same_cost
distinct_from a [] = none
distinct_from a (b ∷ sets) =
    let rest = distinct_from a sets in
    if same_version a.version b.version
    then some (duplicate_version a.version)
    else if same_cost a b
    then some (duplicate_cost a.version b.version)
    else rest

unfoldable pub distinct : List Params → Option PasswordError
unfolding distinct_from
distinct [] = none
distinct (a ∷ sets) = elim (distinct_from a sets) [ some e ↦ some e | none ↦ distinct sets ]

-- Insertion sort, as `median` does it: an element goes down while it is below its left neighbour.
unfoldable pub insert_duration : Duration → List Duration → List Duration
insert_duration d [] = d ∷ []
insert_duration d (x ∷ xs) = if ltb_ℤ d x then d ∷ x ∷ xs else x ∷ insert_duration d xs

unfoldable pub sort_loop : List Duration → List Duration → List Duration
unfolding insert_duration
sort_loop sorted [] = sorted
sort_loop sorted (d ∷ ds) = sort_loop (insert_duration d sorted) ds

unfoldable pub median : List Duration → Duration
unfolding sort_loop
median durations = get_or (sort_loop [] durations) (length durations / 2) (pos 0)

abbrev pub max_samples : ℕ
max_samples = 32

abbrev millisecond : ℕ
millisecond = 1_000_000

abbrev pub min_target : Duration
min_target = pos (10 * millisecond)

abbrev pub max_target : Duration
max_target = pos (2 * second)

pub record Measurement : Type 0 where
  pub params : Params
  pub duration : Duration
  pub samples : ℕ

pub record Recommendation : Type 0 where
  pub params : Params
  pub measured : Duration
  pub target : Duration
  pub at_ceiling : Bool
  pub measurements : List Measurement

-- `time_of p i` is how long the evaluation `i` of the set `p` takes.
module _ (time_of : Params → ℕ → Duration) where
  unfoldable pub sample_times : Params → ℕ → List Duration
  sample_times p zero = []
  sample_times p (suc n) = sample_times p n ++ time_of p n ∷ []

  unfoldable pub benchmark : Params → ℕ → Result PasswordError Measurement
  unfolding is_zero_params median sample_times
  benchmark p samples =
      if is_zero_params p
      then err not_constructed
      else if ltb samples 1 || ltb max_samples samples
      then err samples_bounds
      else ok (record { params = p; duration = median (sample_times p samples); samples = samples })

  -- The loop of `Recommend` from `iterations` on, with the best set so far; `left` is how many rounds are
  -- left up to the ceiling.
  unfoldable pub recommend_loop :
      ℕ
      → ℕ
      → ℕ
      → ℕ
      → Duration
      → ℕ
      → Option (Params × Duration)
      → List Measurement
      → Result PasswordError (Option (Params × Duration) × Bool × List Measurement)
  unfolding new_params benchmark
  recommend_loop zero iterations memory parallelism target samples best seen =
      ok (best, false, seen)
  recommend_loop (suc left) iterations memory parallelism target samples best seen = do
    p ← new_params (pos 1) memory iterations parallelism
    m ← benchmark p samples
    if ltb_ℤ target m.duration
        then ok (best, false, seen ++ m ∷ [])
        else if iterations == max_iterations
        then ok (some (p, m.duration), true, seen ++ m ∷ [])
        else recommend_loop left (iterations + 1) memory parallelism target samples
            (some (p, m.duration)) (seen ++ m ∷ [])

  unfoldable pub recommend : ℕ → ℕ → Duration → ℕ → Result PasswordError Recommendation
  unfolding recommend_loop
  recommend memory parallelism target samples = do
    fail_if (ltb_ℤ target min_target || ltb_ℤ max_target target) target_bounds
    found ← recommend_loop max_iterations min_iterations memory parallelism target samples none []
    elim found.0 [
      | none ↦ err unreachable_target
      | some (p, d) ↦ ok (record {
        params = p;
        measured = d;
        target = target;
        at_ceiling = found.1;
        measurements = found.2;
      })
    ]
