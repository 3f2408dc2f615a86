-- ===== src/ModelRunner/Reclaim.antt =====
-- The slots of the pool when evictions come only while no request in progress has an output.
use sglang_mlx.Prelude.{
  ℕ, List, [], ◌∷◌, ◌++◌, ◌≡◌, refl, sym, ◌∙◌, ap, arith, length, Result, ok, raise, append-nil,
  subst, Bool-cases, inl, inr, leb, some,
}
use sglang_mlx.Allocator.{TokenPoolAllocator, new_allocator}
use sglang_mlx.Allocator.Slots.{once_within}
use sglang_mlx.KvPool.{Mlx}
use sglang_mlx.Radix.Tree.{Supply}
use sglang_mlx.Radix.Policy.{choose_strategy, same}
use sglang_mlx.Radix.Cache.{RadixCache, set_allocator, new_cache}
use sglang_mlx.Radix.SlotSums.{held}
use sglang_mlx.Radix.Refine.{cached}
use sglang_mlx.Radix.Evict.{evict}
use sglang_mlx.Radix.Evict.Promises.{evict-slots}
use sglang_mlx.Radix.Locks.Calls.{IsHeld}
use sglang_mlx.Radix.Locks.Clients.{nodes}
use sglang_mlx.Radix.Locks.Owned.{place-whole}
use sglang_mlx.Radix.Locks.Served.{AllOwn}
use sglang_mlx.ModelRunner.State.{RequestState, Network, ModelRunner, seq_len, new_runner}
use sglang_mlx.ModelRunner.Slots.{all_slots}
use sglang_mlx.ModelRunner.Interleaved.{Serving, AreHeld}
use sglang_mlx.ModelRunner.Pool.{IsServing, Step-IsServing, Starts, new_runner-IsServing}
use sglang_mlx.ModelRunner.Ready.{IsReady}
use sglang_mlx.ModelRunner.Guarded.{ready}
use sglang_mlx.ModelRunner.Shared.{IsShared, Step-IsShared}
use sglang_mlx.ModelRunner.Turns.{
  Turn, Turns, calls, evicts, here, next, locks_of, IsGuarding, Turn-IsGuarding, Begins,
  new_runner-IsGuarding,
}

-- No request has an output yet.
abbrev pub NoneDecoded : List RequestState → Type 0
NoneDecoded [] = Unit
NoneDecoded (s ∷ l) = (s.output_tokens ≡ []) × NoneDecoded l

-- A prompt that its lock guards is cached whole, and is all of a request without output.
AreHeld-evicted :
    (held : List ℕ) (c d : RadixCache) (l : List RequestState)
    → IsHeld held d
    → NoneDecoded l
    → AllOwn d (locks_of l)
    → AreHeld c l
    → AreHeld d l
unfolding seq_len
AreHeld-evicted held c d [] u none_yet o live = tt
AreHeld-evicted held c d (s ∷ l) u (e, es) (o, os) ((h, whole), live) = (
  (
    h,
    ap (λ q. length (cached d (s.prompt_tokens ++ q))) e
        ∙ ap (λ q. length (cached d q)) (append-nil s.prompt_tokens)
        ∙ omega (arith, place-whole held d s.prompt_tokens s.radix_node u o.place, ap length e),
  ),
  AreHeld-evicted held c d l u es os live,
)

-- A runner that shares its allocator, with its slots in order.
record IsReclaiming (m : Mlx) (bound : ℕ → ℕ) (w : Serving m) : Type 0 where
  shared : IsShared m w.runner
  guarding : IsGuarding m w
  serving : IsServing m bound w

evict-all_slots :
    (m : Mlx) (r : ModelRunner m) (num_tokens k i : ℕ) (d : RadixCache) (a : TokenPoolAllocator)
    → IsShared m r
    → IsReady r.radix_cache
    → evict r.radix_cache num_tokens ≡ some (k, d)
    → d.allocator ≡ some a
    → all_slots m i (record r { radix_cache = d; allocator = a }) ≡ all_slots m i r
unfolding held
evict-all_slots m r num_tokens k i d a shared v e ea =
    let (b, eb, _, sum) =
      evict-slots r.radix_cache d r.allocator num_tokens k i v.kept v.enabled shared e in
    let one : some a ≡ some b = sym ea ∙ eb in let same : a ≡ b = cc in rw same sum

Turn-IsReclaiming :
    (m : Mlx) (n : Network m) (bound : ℕ → ℕ) (w x : Serving m)
    → Turn m NoneDecoded n w x
    → IsReclaiming m bound w
    → IsReclaiming m bound x
Turn-IsReclaiming m n bound w x (calls s) v = record {
  shared = Step-IsShared m n w x s v.shared;
  guarding = Turn-IsGuarding m NoneDecoded n w x (calls s) v.guarding;
  serving = Step-IsServing m n bound w x s v.serving;
}
Turn-IsReclaiming m n bound _ _ (evicts r l num_tokens k d a none_yet e ea) v =
    let w : Serving m = record { runner = r; requests = l } in
    let x : Serving m = record {
      runner = record r { radix_cache = d; allocator = a };
      requests = l;
    } in
    let turn : Turn m NoneDecoded n w x = evicts r l num_tokens k d a none_yet e ea in
    let guarding = Turn-IsGuarding m NoneDecoded n w x turn v.guarding in
    record {
      shared = ea;
      guarding = guarding;
      serving = record {
        ready = ready d (locks_of l) guarding.served;
        live =
            AreHeld-evicted (nodes (locks_of l)) r.radix_cache d l guarding.served.held none_yet
              guarding.served.owned v.serving.live;
        counted = λ i. omega (
          arith,
          v.serving.counted i,
          evict-all_slots m r num_tokens k i d a v.shared v.serving.ready e ea,
        );
      };
    }

Turns-IsReclaiming :
    (m : Mlx) (n : Network m) (bound : ℕ → ℕ) (w x : Serving m)
    → Turns m NoneDecoded n w x
    → IsReclaiming m bound w
    → IsReclaiming m bound x
Turns-IsReclaiming m n bound w _ here v = v
Turns-IsReclaiming m n bound w _ (next {x} {y} r s) v =
    Turn-IsReclaiming m n bound x y s (Turns-IsReclaiming m n bound w x r v)

abbrev Shares : (m : Mlx) → Result (ModelRunner m) → Type 0
Shares m (raise e) = Unit
Shares m (ok r) = IsShared m r

new_runner-IsShared :
    (m : Mlx) (num_layers n_kv_heads head_dim pool_size : ℕ) (dtype : m.Dtype) (s : Supply)
    → Shares m (new_runner m num_layers n_kv_heads head_dim pool_size dtype s)
unfolding new_runner new_allocator new_cache choose_strategy same set_allocator
new_runner-IsShared m num_layers n_kv_heads head_dim pool_size dtype s =
    elim (Bool-cases (leb pool_size 0)) [ inl e ↦ rw e tt | inr e ↦ rw e refl ]

-- From a new runner, after any interleaving of prefills, decodes, ends of requests and evictions
-- from its cache, also calls that raised, where evictions come only while no request in progress
-- has an output: the cache is in order; each request in progress has a slot for each of its tokens,
-- all of which are cached; and each slot from 1 to `pool_size` is free or in the tree once at most,
-- and no other number is.
pub Turns-IsServing :
    (m : Mlx) (n : Network m) (num_layers n_kv_heads head_dim pool_size : ℕ) (dtype : m.Dtype)
    (s : Supply) (r : ModelRunner m) (w : Serving m)
    → new_runner m num_layers n_kv_heads head_dim pool_size dtype s ≡ ok r
    → Turns m NoneDecoded n (record { runner = r; requests = [] }) w
    → IsServing m (once_within pool_size) w
Turns-IsServing m n num_layers n_kv_heads head_dim pool_size dtype s r w e turns =
    let start =
      Turns-IsReclaiming m n (once_within pool_size) (record { runner = r; requests = [] }) w turns
        (record {
          shared =
              subst (Shares m) e
                (new_runner-IsShared m num_layers n_kv_heads head_dim pool_size dtype s);
          guarding =
              subst (Begins m) e
                (new_runner-IsGuarding m num_layers n_kv_heads head_dim pool_size dtype s);
          serving =
              subst (Starts m (once_within pool_size)) e
                (new_runner-IsServing m num_layers n_kv_heads head_dim pool_size dtype s);
        }) in
    start.serving
