-- ===== src/Pool.antt =====
-- The connection pool, services/connector-hub/internal/pool/connection_pool.go: its configuration
-- and the state that its methods share.
pub mod Step
pub mod Run
pub mod Accounts
pub mod Balance
pub mod Owners
mod Tests
use chartly.Prelude.{
  ℕ, ◌+◌, ◌-◌, ◌*◌, ◌%◌, ◌^◌, Bool, true, false, ◌&&◌, ◌||◌, List, [], ◌∷◌, ◌++◌, ◌⊎◌, inl, inr,
  if◌then◌else◌, ltb, leb,
}
use Prim.Native.Nat.{min}
use chartly.Prelude.Int.{ℤ, or_default}

-- Sizes are of Go's type int, durations are nanoseconds.
pub record Config : Type 0 where
  pub max_size : ℤ
  pub min_size : ℤ
  pub acquire_timeout : ℤ
  pub idle_timeout : ℤ
  pub max_lifetime : ℤ
  pub reap_interval : ℤ

-- The configuration that New settles on, and whether there is a health function.
pub record Settings : Type 0 where
  pub max_size : ℕ
  pub min_size : ℕ
  pub acquire_timeout : ℕ
  pub idle_timeout : ℕ
  pub max_lifetime : ℕ
  pub reap_interval : ℕ
  pub has_health : Bool

-- A `*pooled`: the address, and the times. The resource is the factory's.
pub record Pooled : Type 0 where
  pub id : ℕ
  pub created : ℕ
  pub last_used : ℕ

-- `next_id` is the address of the next allocation, `started` and `stopped` are the two sync.Once.
pub record Pool : Type 0 where
  pub cfg : Settings
  pub ch : List Pooled
  pub started : Bool
  pub stopped : Bool
  pub closed : Bool
  pub total : ℕ
  pub idle : ℕ
  pub in_use : ℕ
  pub created : ℕ
  pub closed_count : ℕ
  pub acquire_timeouts : ℕ
  pub next_id : ℕ

pub data PoolErr : Type 0 where
  factory_nil close_nil acquire_timeout pool_closed factory_error : PoolErr

-- One second in nanoseconds.
abbrev pub second : ℕ
second = 10 ^ 9

abbrev pub settle : Config → Bool → Settings
settle c has_health = record {
  max_size = or_default c.max_size 10;
  min_size = min (or_default c.min_size 0) (or_default c.max_size 10);
  acquire_timeout = or_default c.acquire_timeout (2 * second);
  idle_timeout = or_default c.idle_timeout (60 * second);
  max_lifetime = or_default c.max_lifetime (600 * second);
  reap_interval = or_default c.reap_interval (30 * second);
  has_health = has_health;
}

unfoldable pub new_pool : Settings → Pool
new_pool cfg = record {
  cfg = cfg;
  ch = [];
  started = false;
  stopped = false;
  closed = false;
  total = 0;
  idle = 0;
  in_use = 0;
  created = 0;
  closed_count = 0;
  acquire_timeouts = 0;
  next_id = 0;
}

-- `New`, given which of the functions are there.
unfoldable pub new : Config → Bool → Bool → Bool → PoolErr ⊎ Pool
unfolding new_pool
new c has_factory has_close has_health =
    if has_factory
    then if has_close then inr (new_pool (settle c has_health)) else inl close_nil
    else inl factory_nil

-- `x.Add(1)` and `x.Add(^uint64(0))`.
unfoldable pub up : ℕ → ℕ
up x = (x + 1) % 2 ^ 64

unfoldable pub down : ℕ → ℕ
down x = (x + (2 ^ 64 - 1)) % 2 ^ 64

-- `int(x) < m` for a uint64 `x`, which may turn negative.
unfoldable pub int_lt : ℕ → ℕ → Bool
int_lt x m = leb (2 ^ 63) x || ltb x m

unfoldable pub is_expired : Settings → ℕ → Pooled → Bool
is_expired cfg now it =
    (ltb 0 cfg.max_lifetime && ltb (it.created + cfg.max_lifetime) now)
    || (ltb 0 cfg.idle_timeout && ltb (it.last_used + cfg.idle_timeout) now)

pub record Stats : Type 0 where
  pub total : ℕ
  pub idle : ℕ
  pub in_use : ℕ
  pub created : ℕ
  pub closed : ℕ
  pub acquire_timeouts : ℕ

-- All counters are read at once; the method reads them one after the other.
unfoldable pub stats : Pool → Stats
stats p = record {
  total = p.total;
  idle = p.idle;
  in_use = p.in_use;
  created = p.created;
  closed = p.closed_count;
  acquire_timeouts = p.acquire_timeouts;
}
