-- ===== src/Scheduler/Discovery/Accounts.antt =====
-- What a part of a discovery run adds to the record of calls and to the counts.
use careerpilot.Base.{
  ℕ, ◌+◌, ◌≤◌, String, ◌≡◌, refl, Bool, true, false, none, some, List, ◌∷◌, arith, length, count_if,
  Error, Result, ok, err,
}
use careerpilot.Job.Types
use careerpilot.Job.Types.{RawJob, Call}
use careerpilot.Scheduler.Discovery.{count_fetched, note, Progress}

abbrev is_fetch : Call → Bool
is_fetch (Types.fetch_jobs _) = true
is_fetch _ = false

abbrev is_save : Call → Bool
is_save (Types.save_job _) = true
is_save _ = false

-- The fetches and the saves on record.
abbrev pub fetches : List Call → ℕ
fetches h = count_if is_fetch h

abbrev pub saves : List Call → ℕ
saves h = count_if is_save h

-- What a part of the run adds to the record and to the counts.
pub record Accounts (n_sources n_fetched n_jobs : ℕ) (p : Progress) (h : List Call)
    (x : Progress × List Call) : Type 0 where
  pub fetched_from : fetches x.1 ≡ n_sources + fetches h
  pub fetched_sum : x.0.0.fetched ≡ n_fetched + p.0.fetched
  pub saved_least : saves h + x.0.0.ingested ≤ saves x.1 + p.0.ingested
  pub saved_most : saves x.1 ≤ n_jobs + saves h
  pub ingested_most : x.0.0.ingested ≤ n_jobs + p.0.ingested
  pub silent_before : x.0.1 ≡ none → p.1 ≡ none
  pub silent : x.0.1 ≡ none → x.0.0.ingested ≡ n_jobs + p.0.ingested

-- The same history, as far as the counts go.
pub from_quiet :
    {n_sources n_fetched n_jobs : ℕ} (p : Progress) {h h' : List Call} {x : Progress × List Call}
    → fetches h' ≡ fetches h
    → saves h' ≡ saves h
    → Accounts n_sources n_fetched n_jobs p h' x
    → Accounts n_sources n_fetched n_jobs p h x
from_quiet p f s a = record {
  fetched_from = omega (arith, a.fetched_from);
  fetched_sum = a.fetched_sum;
  saved_least = omega (arith, a.saved_least);
  saved_most = omega (arith, a.saved_most);
  ingested_most = a.ingested_most;
  silent_before = a.silent_before;
  silent = a.silent;
}

pub Accounts-none : (p : Progress) (h : List Call) → Accounts 0 0 0 p h (p, h)
Accounts-none p h = record {
  fetched_from = omega arith;
  fetched_sum = omega arith;
  saved_least = omega arith;
  saved_most = omega arith;
  ingested_most = omega arith;
  silent_before = λ e. e;
  silent = λ e. omega arith;
}

pub Accounts-then :
    (m m' g g' n n' : ℕ) {k f l : ℕ} {p : Progress} {h : List Call} {x y : Progress × List Call}
    → k ≡ m + m'
    → f ≡ g + g'
    → l ≡ n + n'
    → Accounts m g n p h x
    → Accounts m' g' n' x.0 x.1 y
    → Accounts k f l p h y
Accounts-then m m' g g' n n' k_is f_is l_is a b = record {
  fetched_from = omega (arith, a.fetched_from, b.fetched_from);
  fetched_sum = omega (arith, a.fetched_sum, b.fetched_sum);
  saved_least = omega (arith, a.saved_least, b.saved_least);
  saved_most = omega (arith, a.saved_most, b.saved_most);
  ingested_most = omega (arith, a.ingested_most, b.ingested_most);
  silent_before = λ e. a.silent_before (b.silent_before e);
  silent = λ e. omega (arith, a.silent (b.silent_before e), b.silent e);
}

abbrev pub delivered : Result (List RawJob) → ℕ
delivered (ok raws) = length raws
delivered (err e) = 0

-- The `fetched` count does not enter the account.
pub fetched_more :
    {n : ℕ} (p : Progress) (k : ℕ) {source : String} {h : List Call} {x : Progress × List Call}
    → Accounts 0 0 n (count_fetched p k) (Types.fetch_jobs source ∷ h) x
    → Accounts 1 k n p h x
fetched_more (result, first) k a = record {
  fetched_from = omega (arith, a.fetched_from);
  fetched_sum = omega (arith, a.fetched_sum);
  saved_least = a.saved_least;
  saved_most = a.saved_most;
  ingested_most = a.ingested_most;
  silent_before = a.silent_before;
  silent = a.silent;
}

pub note-Accounts :
    (p : Progress) (e : Error) (n_sources n_jobs : ℕ) (h h' : List Call)
    → fetches h' ≡ n_sources + fetches h
    → saves h' ≡ saves h
    → Accounts n_sources 0 n_jobs p h (note p e, h')
note-Accounts (result, none) e n_sources n_jobs h h' f s = record {
  fetched_from = f;
  fetched_sum = omega arith;
  saved_least = omega arith;
  saved_most = omega arith;
  ingested_most = omega arith;
  silent_before = λ e. refl;
  silent = λ e. absurd (ground arith);
}
note-Accounts (result, some first) e n_sources n_jobs h h' f s = record {
  fetched_from = f;
  fetched_sum = omega arith;
  saved_least = omega arith;
  saved_most = omega arith;
  ingested_most = omega arith;
  silent_before = λ e. e;
  silent = λ e. absurd (ground arith);
}
