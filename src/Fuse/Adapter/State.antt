-- ===== src/Fuse/Adapter/State.antt =====
-- fs-fuse/src/lib.rs: the state of the adapter, and the chain of its steps. A step keeps the state that
-- it has reached when it fails.
use fabric_fs.Prelude.{two_pow_64}
use Prim.Native.String.{◌++◌ as text_append}
use fabric_fs.Prelude.{
  ℕ, ◌+◌, ◌/◌, ◌%◌, String, ltb, ◌==◌, if◌then◌else◌, Option, none, some, Result, ok, err,
}
use fabric_fs.Protocol.Messages.{CallerContext}
use fabric_fs.Core.Dispatcher.{RpcClient}
use fabric_fs.Fuse.Cache.{FuseError}
use fabric_fs.Fuse.Kernel.{CacheKernel, new_kernel}

pub record AdapterMetrics : Type 0 where
  pub calls_total : ℕ
  pub call_failures : ℕ
  pub stale_cache_total : ℕ
  pub invalidation_drains_total : ℕ
  pub invalidation_errors_total : ℕ
  pub cache_poison_total : ℕ

unfoldable pub no_metrics : AdapterMetrics
no_metrics = record {
  calls_total = 0;
  call_failures = 0;
  stale_cache_total = 0;
  invalidation_drains_total = 0;
  invalidation_errors_total = 0;
  cache_poison_total = 0;
}

-- `fetch_add(1)` of an AtomicU64.
unfoldable pub fetch_add : ℕ → ℕ
fetch_add n = (n + 1) % two_pow_64

pub record FuseAdapter (C : Type 0) : Type 0 where
  pub client : RpcClient C
  pub namespace : String

-- `caller` is the thread's caller context.
pub record AdapterState (C : Type 0) : Type 0 where
  pub connection : C
  pub kernel : CacheKernel
  pub next_request_id : ℕ
  pub metrics : AdapterMetrics
  pub caller : Option CallerContext

unfoldable pub new_state : {C : Type 0} → C → AdapterState C
new_state connection = record {
  connection = connection;
  kernel = new_kernel;
  next_request_id = 1;
  metrics = no_metrics;
  caller = none;
}

abbrev pub Adapt : Type 0 → Type 0 → Type 0
Adapt C A = AdapterState C → AdapterState C × Result FuseError A

abbrev pub go_on :
    {C A B : Type 0}
    → (A → Adapt C B)
    → AdapterState C × Result FuseError A
    → AdapterState C × Result FuseError B
go_on f (s, ok a) = f a s
go_on f (s, err e) = (s, err e)

infixl 5 ◌>>=◌ ◌>>◌
abbrev pub ◌>>=◌ : {C A B : Type 0} → Adapt C A → (A → Adapt C B) → Adapt C B
m >>= f = λ s. go_on f (m s)

abbrev pub ◌>>◌ : {C A B : Type 0} → Adapt C A → Adapt C B → Adapt C B
m >> k = m >>= λ _. k

abbrev pub succeed : {C A : Type 0} → A → Adapt C A
succeed a = λ s. (s, ok a)

abbrev pub fail : {C A : Type 0} → FuseError → Adapt C A
fail e = λ s. (s, err e)

abbrev pub lift : {C A : Type 0} → Result FuseError A → Adapt C A
lift r = λ s. (s, r)

-- A reading of the cache, and a change of it.
abbrev pub read_kernel : {C A : Type 0} → (CacheKernel → Result FuseError A) → Adapt C A
read_kernel f = λ s. (s, f s.kernel)

abbrev pub change_kernel : {C : Type 0} → (CacheKernel → CacheKernel) → Adapt C (Unit {0})
change_kernel f = λ s. (record s { kernel = f s.kernel }, ok tt)

abbrev pub count_metrics : {C : Type 0} → (AdapterMetrics → AdapterMetrics) → Adapt C (Unit {0})
count_metrics f = λ s. (record s { metrics = f s.metrics }, ok tt)

-- `with_caller_context`: the former caller comes back when the guard is dropped.
abbrev pub restore :
    {C A : Type 0}
    → Option CallerContext
    → AdapterState C × Result FuseError A
    → AdapterState C × Result FuseError A
restore previous (s, r) = (record s { caller = previous }, r)

unfoldable pub with_caller_context : {C A : Type 0} → CallerContext → Adapt C A → Adapt C A
with_caller_context caller operation =
    λ s. restore s.caller (operation (record s { caller = some caller }))

-- Decimal digits.
unfoldable pub digit : ℕ → String
digit d =
    if d == 0
    then "0"
    else if d == 1
    then "1"
    else if d == 2
    then "2"
    else if d == 3
    then "3"
    else if d == 4
    then "4"
    else if d == 5
    then "5"
    else if d == 6
    then "6"
    else if d == 7
    then "7"
    else if d == 8
    then "8"
    else "9"

-- 20 digits are enough for a u64.
unfoldable pub decimal : ℕ → ℕ → String
decimal ℕ.zero n = ""
decimal (ℕ.suc fuel) n =
    let rest = decimal fuel (n / 10) in
    if ltb n 10 then digit n else text_append rest (digit (n % 10))

unfoldable pub fuse_request_id : ℕ → String
fuse_request_id n = text_append "fuse-" (decimal 20 n)
