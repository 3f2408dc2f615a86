-- ===== src/Radix/Locks/Served.antt =====
-- Each call of a client keeps the locks in order, and what each of them guards.
use sglang_mlx.Prelude.{
  ℕ, ◌≤◌, Option, none, some, List, [], ◌∷◌, ◌++◌, ◌≡◌, refl, sym, ◌∙◌, ap, arith, count, length,
  take, ℤ, inl, inr, ◌⊎◌, append-nil, subst,
}
use sglang_mlx.Radix.Lock.{Body, inc_node, dec_node}
use sglang_mlx.Radix.LockView.{Keeps, inc_node-Keeps, dec_node-Keeps}
use sglang_mlx.Radix.Refine.{
  cached, IsWellFormed, cached-match_prefix, cached-insert, match_prefix-cached, cached-climb_cache,
}
use sglang_mlx.Radix.Answers.{overlay-grows}
use sglang_mlx.Radix.Evict.View.{IsPrefix}
use sglang_mlx.Radix.Evict.Laws.{evict-Eviction}
use sglang_mlx.Radix.Evict.{evict}
use sglang_mlx.Radix.Cache.{
  RadixCache, InsertParams, match_prefix, insert, climb, inc_lock_ref, dec_lock_ref,
}
use sglang_mlx.Radix.Locks.Cut.{StaysHeld}
use sglang_mlx.Radix.Locks.Calls.{
  left_by, IsHeld, ends, match-IsHeld, insert-IsHeld, inc-IsHeld, dec-IsHeld, evict-IsHeld,
}
use sglang_mlx.Radix.Locks.Clients.{
  Lock, Clients, nodes, lock_at, Step, matches, stores, takes, releases, evicts, Owns,
}
use sglang_mlx.Radix.Locks.Owned.{HasPlace, Owns-keeps, match_prefix-HasPlace, cached-matched}

abbrev pub AllOwn : RadixCache → List Lock → Type 0
AllOwn c [] = Unit
AllOwn c (x ∷ l) = Owns c x × AllOwn c l

-- The cache is in order with the locks of the clients, and each lock guards its tokens' slots.
pub record AreServed (w : Clients) : Type 0 where
  pub held : IsHeld (nodes w.locks) w.cache
  pub owned : AllOwn w.cache w.locks

-- What a lock call at the last node of a match leaves.
abbrev pub took : RadixCache → List Lock → List ℕ → Clients
took c l q =
    let (found, d) = match_prefix c q in
    record { cache = left_by d (inc_lock_ref d found.last_node); locks = lock_at found q ∷ l }

AllOwn-keeps :
    (held held' : List ℕ) (c d : RadixCache) (l : List Lock)
    → IsHeld held c
    → IsHeld held' d
    → ((j : ℕ) → count j (nodes l) ≤ count j held)
    → StaysHeld held (ends d) (ends c)
    → ((q : List ℕ) → IsPrefix (cached c q) (cached d q) ⊎ IsPrefix (cached d q) (cached c q))
    → AllOwn c l
    → AllOwn d l
unfolding count
AllOwn-keeps held held' c d [] v u le stays near o = tt
AllOwn-keeps held held' c d (x ∷ l) v u le stays near (o, os) = (
  Owns-keeps held held' c d x v u (stays x.key x.node (ground (arith, le x.node))) (near x.key) o,
  AllOwn-keeps held held' c d l v u (λ j. ground (arith, le j)) stays near os,
)

AllOwn-remove :
    (c : RadixCache) (before behind : List Lock) (x : Lock)
    → AllOwn c (before ++ (x ∷ behind))
    → AllOwn c (before ++ behind)
AllOwn-remove c [] behind x o = o.1
AllOwn-remove c (y ∷ before) behind x o = (o.0, AllOwn-remove c before behind x o.1)

count-nodes_remove :
    (j : ℕ) (before behind : List Lock) (x : Lock)
    → count j (nodes (before ++ (x ∷ behind))) ≡ count j (x.node ∷ nodes (before ++ behind))
unfolding count
count-nodes_remove j [] behind x = refl
count-nodes_remove j (y ∷ before) behind x = omega (arith, count-nodes_remove j before behind x)

same_answer : (a b : List ℕ) → b ≡ a → IsPrefix a b ⊎ IsPrefix b a
same_answer a b e = inl ([], append-nil a ∙ sym e)

cached-lock :
    (body : Body) (c : RadixCache) (r : Option (ℤ × RadixCache)) (i : ℕ)
    → Keeps body
    → IsWellFormed c
    → climb body c i ≡ r
    → (q : List ℕ) → cached (left_by c r) q ≡ cached c q
cached-lock body c none i k w e q = refl
cached-lock body c (some (delta, d)) i k w e q = (cached-climb_cache body c d i delta k w e).1 q

cached-inc :
    (held : List ℕ) (c : RadixCache) (i : ℕ)
    → IsHeld held c
    → (q : List ℕ) → cached (left_by c (inc_lock_ref c i)) q ≡ cached c q
unfolding inc_lock_ref
cached-inc held c i v = cached-lock inc_node c _ i inc_node-Keeps (v.kept.leaves 0).shape refl

cached-dec :
    (held : List ℕ) (c : RadixCache) (i : ℕ)
    → IsHeld held c
    → (q : List ℕ) → cached (left_by c (dec_lock_ref c i)) q ≡ cached c q
unfolding dec_lock_ref
cached-dec held c i v = cached-lock dec_node c _ i dec_node-Keeps (v.kept.leaves 0).shape refl

matches-AreServed :
    (c : RadixCache) (l : List Lock) (q : List ℕ)
    → AreServed (record { cache = c; locks = l })
    → AreServed (record { cache = (match_prefix c q).1; locks = l })
matches-AreServed c l q v =
    let (held, stays) = match-IsHeld (nodes l) c q v.held in
    let same = (cached-match_prefix c q (v.held.kept.leaves 0).shape).1 in
    record {
      held = held;
      owned =
          AllOwn-keeps (nodes l) (nodes l) c (match_prefix c q).1 l v.held held (λ j. omega arith)
            (λ p j some_held e. stays p j e)
            (λ p. same_answer (cached c p) (cached (match_prefix c q).1 p) (same p)) v.owned;
    }

stores-AreServed :
    (c : RadixCache) (l : List Lock) (key value : List ℕ) (p : ℤ)
    → length value ≡ length key
    → AreServed (record { cache = c; locks = l })
    → AreServed (record {
      cache = (insert c (record { key = key; value = some value; priority = p })).1;
      locks = l;
    })
stores-AreServed c l key value p paired v =
    let params : InsertParams = record { key = key; value = some value; priority = p } in
    let (held, stays) = insert-IsHeld (nodes l) c key value p paired v.held in
    let after = (cached-insert c params (v.held.kept.leaves 0).shape v.held.enabled paired).1 in
    record {
      held = held;
      owned =
          AllOwn-keeps (nodes l) (nodes l) c (insert c params).1 l v.held held (λ j. omega arith)
            (λ q j some_held e. stays q j e)
            (λ q. inl (rw (after q) (overlay-grows key value (cached c q) q))) v.owned;
    }

-- The lock at the last node of a match owns the slots that the match returned.
took-Owns :
    (held : List ℕ) (c : RadixCache) (q : List ℕ)
    → IsHeld held c
    → let (found, d) = match_prefix c q in
      Owns d (record {
        node = found.last_node;
        key = take (length found.device_indices) q;
        slots = found.device_indices;
      })
took-Owns held c q v =
    let (found, d) = match_prefix c q in
    let shape = (v.kept.leaves 0).shape in
    let after = (match-IsHeld held c q v).0 in
    let place = (match_prefix-HasPlace held c q v).0 in
    let answer : found.device_indices ≡ cached d q =
      match_prefix-cached c q shape v.enabled ∙ sym ((cached-match_prefix c q shape).1 q) in
    record {
      place = place;
      slots =
          ap (λ l. cached d (take (length l) q)) answer
          ∙ cached-matched held d q found.last_node after
              (subst (λ l. HasPlace d (take (length l) q) found.last_node) answer place)
          ∙ sym answer;
    }

pub takes-AreServed :
    (c : RadixCache) (l : List Lock) (q : List ℕ)
    → AreServed (record { cache = c; locks = l })
    → AreServed (took c l q)
unfolding count
takes-AreServed c l q v =
    let (found, d) = match_prefix c q in
    let matched = matches-AreServed c l q v in
    let given = (match_prefix-HasPlace (nodes l) c q v.held).1 in
    let i = found.last_node in
    let (held, stays) = inc-IsHeld (nodes l) d i given matched.held in
    let same = cached-inc (nodes l) d i matched.held in
    let e = left_by d (inc_lock_ref d i) in
    record {
      held = held;
      owned = (
        Owns-keeps (nodes l) (i ∷ nodes l) d e _ matched.held held
            (stays (take (length found.device_indices) q) i)
            (same_answer (cached d (take (length found.device_indices) q)) _
              (same (take (length found.device_indices) q)))
            (took-Owns (nodes l) c q v.held),
        AllOwn-keeps (nodes l) (i ∷ nodes l) d e l matched.held held (λ j. omega arith)
            (λ p j some_held k. stays p j k) (λ p. same_answer (cached d p) (cached e p) (same p))
            matched.owned,
      );
    }

pub releases-AreServed :
    (c : RadixCache) (before behind : List Lock) (x : Lock)
    → AreServed (record { cache = c; locks = before ++ (x ∷ behind) })
    → AreServed (record { cache = left_by c (dec_lock_ref c x.node); locks = before ++ behind })
unfolding count
releases-AreServed c before behind x v =
    let held = nodes (before ++ (x ∷ behind)) in
    let held' = nodes (before ++ behind) in
    let drops = λ (j : ℕ). count-nodes_remove j before behind x in
    let (after, stays) = dec-IsHeld held held' c x.node drops v.held in
    let d = left_by c (dec_lock_ref c x.node) in
    let same = cached-dec held c x.node v.held in
    record {
      held = after;
      owned =
          AllOwn-keeps held held' c d (before ++ behind) v.held after (λ j. ground (arith, drops j))
            (λ q j some_held e. stays q j e) (λ q. same_answer (cached c q) (cached d q) (same q))
            (AllOwn-remove c before behind x v.owned);
    }

evicts-AreServed :
    (c d : RadixCache) (l : List Lock) (n k : ℕ)
    → evict c n ≡ some (k, d)
    → AreServed (record { cache = c; locks = l })
    → AreServed (record { cache = d; locks = l })
evicts-AreServed c d l n k e v =
    let (held, stays) = evict-IsHeld (nodes l) c d n k e v.held in
    let view = (evict-Eviction c d n k v.held.kept v.held.enabled e).view in
    record {
      held = held;
      owned =
          AllOwn-keeps (nodes l) (nodes l) c d l v.held held (λ j. omega arith) stays
            (λ q. inr (view q)) v.owned;
    }

pub Step-AreServed : (w x : Clients) → Step w x → AreServed w → AreServed x
Step-AreServed _ _ (matches c l q) v = matches-AreServed c l q v
Step-AreServed _ _ (stores c l key value p paired) v = stores-AreServed c l key value p paired v
Step-AreServed _ _ (takes c d l q delta e) v =
    let (found, matched) = match_prefix c q in
    subst (λ r. AreServed (record { cache = left_by matched r; locks = lock_at found q ∷ l })) e
      (takes-AreServed c l q v)
Step-AreServed _ _ (releases c d before behind x delta e) v =
    subst (λ r. AreServed (record { cache = left_by c r; locks = before ++ behind })) e
      (releases-AreServed c before behind x v)
Step-AreServed _ _ (evicts c d l n k e) v = evicts-AreServed c d l n k e v
