-- ===== src/Sandbox/Pool.antt =====
-- BoundedSandboxProvider of src/sandbox.py: the calls that wait for the semaphore and those that run.
use ops_sentry.Prelude.{
  nat_eq, ℕ, zero, suc, ◌+◌, List, [], ◌∷◌, ◌++◌, contains, ◌==◌, if◌then◌else◌,
}

-- A call of `execute`, by its number.
abbrev pub CallId : Type 0
CallId = ℕ

-- asyncio.Semaphore, with the calls that are inside `async with` and those that wait, in order. `started` keeps all
-- calls that came inside, in order, and `ended` counts those that left it.
pub record Pool : Type 0 where
  pub value : ℕ
  pub waiting : List CallId
  pub running : List CallId
  pub started : List CallId
  pub ended : ℕ

unfoldable pub new_pool : ℕ → Pool
new_pool max_concurrency = record {
  value = max_concurrency;
  waiting = [];
  running = [];
  started = [];
  ended = 0;
}

abbrev pub begin : CallId → Pool → Pool
begin c p = record p { running = p.running ++ c ∷ []; started = p.started ++ c ∷ [] }

-- `async with self.semaphore`: a call goes on where the value is above 0 and none waits; the value is then one less.
abbrev pub enter : CallId → Pool → ℕ → List CallId → Pool
enter c p zero waiting = record p { waiting = waiting ++ c ∷ [] }
enter c p (suc v) [] = begin c (record p { value = v })
enter c p (suc v) (w ∷ waiting) = record p { waiting = (w ∷ waiting) ++ c ∷ [] }

unfoldable pub remove_call : CallId → List CallId → List CallId
remove_call c [] = []
remove_call c (x ∷ xs) = if x == c then xs else x ∷ remove_call c xs

-- The release hands its turn to the first that waits.
abbrev pub hand_on : Pool → List CallId → Pool
hand_on p [] = record p { value = p.value + 1 }
hand_on p (w ∷ waiting) = begin w (record p { waiting = waiting })

-- The end of `async with`, by the runner's result or its exception.
unfoldable pub leave : CallId → Pool → Pool
unfolding remove_call
leave c p =
    if contains c p.running
    then hand_on (record p { running = remove_call c p.running; ended = suc p.ended }) p.waiting
    else p

pub data PoolEvent : Type 0 where
  called : CallId → PoolEvent
  done : CallId → PoolEvent

unfoldable pub turn : PoolEvent → Pool → Pool
unfolding leave
turn (called c) p = enter c p p.value p.waiting
turn (done c) p = leave c p

unfoldable pub turns : List PoolEvent → Pool → Pool
turns [] p = p
turns (e ∷ es) p = turns es (turn e p)

-- The calls that were made, in order.
unfoldable pub arrivals : List PoolEvent → List CallId
arrivals [] = []
arrivals (called c ∷ es) = c ∷ arrivals es
arrivals (done c ∷ es) = arrivals es
