-- ===== src/Radix/LockView.antt =====
-- Locks change no answer and keep the tree well formed, for any body that keeps tokens and slots.
use sglang_mlx.Prelude.{ℕ, some, List, ◌≡◌, refl, ap, fun_ext}
use sglang_mlx.Radix.Tree.{TreeNode, Children, slots}
use sglang_mlx.Radix.Lock.{Body, Books, climb_children, inc_node, dec_node, climb_induction}
use sglang_mlx.Radix.View.{
  along, cached_children, cached_tree, IsFilled, has_child, WfChildren, WfTree,
}

-- A body that changes neither the tokens nor the slots of a node.
pub record Keeps (body : Body) : Type 0 where
  pub key : (h : TreeNode) (f : Children) (b : Books) → (body h f b).0.key ≡ h.key
  pub value : (h : TreeNode) (f : Children) (b : Books) → (body h f b).0.value ≡ h.value
  pub id : (h : TreeNode) (f : Children) (b : Books) → (body h f b).0.id ≡ h.id

pub inc_node-Keeps : Keeps inc_node
unfolding inc_node
inc_node-Keeps = record { key = λ h f b. refl; value = λ h f b. refl; id = λ h f b. refl }

pub dec_node-Keeps : Keeps dec_node
unfolding dec_node
dec_node-Keeps = record { key = λ h f b. refl; value = λ h f b. refl; id = λ h f b. refl }

module _ (body : Body) (k : Keeps body) where
  IsFilled-body :
      (c : ℕ) (h : TreeNode) (f : Children) (b : Books) → IsFilled c h → IsFilled c (body h f b).0
  IsFilled-body c h f b w = record {
    first = rw (k.key h f b) w.first;
    indices = w.indices;
    held = rw (k.value h f b) w.held;
    paired = rw (k.key h f b) w.paired;
  }

  -- Locks change no answer.
  pub cached-climb :
      (i : ℕ) (f : Children) (b : Books) (f' : Children) (b' : Books)
      → climb_children body i f b ≡ some (f', b')
      → (q : List ℕ) → cached_children f' q ≡ cached_children f q
  unfolding cached_children
  cached-climb =
      climb_induction body (λ f b f' b'. (q : List ℕ) → cached_children f' q ≡ cached_children f q)
        (λ t b t' b'. (q : List ℕ) → cached_tree t' q ≡ cached_tree t q)
        (λ h f b q. rw (k.key h f b, k.value h f b))
        (λ h f b f' b' ih q.
          rw (k.key h f' b', k.value h f' b')
            (ap (λ g. along h.key (slots h.value) g q) (fun_ext ih)))
        (λ c t f b t' b' ih q. rw (ih q)) (λ c t f b f' b' ih q. rw (ih q))

  pub climb-Wf :
      (i : ℕ) (f : Children) (b : Books) (f' : Children) (b' : Books)
      → climb_children body i f b ≡ some (f', b')
      → WfChildren f
      → WfChildren f'
  climb-Wf i f b f' b' e w =
      (climb_induction body
          (λ f b f' b'. ((d : ℕ) → has_child d f' ≡ has_child d f) × (WfChildren f → WfChildren f'))
          (λ t b t' b'. (c : ℕ) → WfTree c t → WfTree c t')
          (λ h f b c w. (IsFilled-body c h f b w.0, w.1))
          (λ h f b f' b' ih c w. (IsFilled-body c h f' b' w.0, ih.1 w.1))
          (λ c t f b t' b' ih. (λ d. unfold has_child in refl, λ w. (ih c w.0, w.1, w.2)))
          (λ c t f b f' b' ih.
            (λ d. unfold has_child in rw (ih.0 d), λ w. (w.0, rw (ih.0 c) w.1, ih.1 w.2)))
          i f b f' b' e).1
        w
