-- ===== src/Treap/Inorder.antt =====
-- The entries of a treap in the order of a traversal, and what the loops of Node do to them.
use nogocommons.Base.{◌≡◌, refl, sym, ap, ◌∙◌, leb, Bool-cases, inl, inr, arith}
use nogocommons.Base.{List, [], ◌∷◌, ◌++◌, append-nil, append_assoc, Bytes}
use nogocommons.Treap.Node.{Tree, nil, node, Entry, went_left, went_right, Parents}
use nogocommons.Treap.Node.{plug, descend, bubble, sink}

abbrev pub inorder : Tree → List Entry
inorder nil = []
inorder (node l e r) = inorder l ++ (e ∷ inorder r)

-- What the parents put before and behind the place below them.
abbrev pub before : Parents → List Entry
before [] = []
before (went_left e other ∷ p) = before p
before (went_right e other ∷ p) = before p ++ (inorder other ++ (e ∷ []))

abbrev pub after : Parents → List Entry
after [] = []
after (went_left e other ∷ p) = e ∷ (inorder other ++ after p)
after (went_right e other ∷ p) = after p

pub inorder-plug :
    (p : Parents) (t : Tree) → inorder (plug p t) ≡ before p ++ (inorder t ++ after p)
unfolding plug
inorder-plug [] t = sym (append-nil _)
inorder-plug (went_left e other ∷ p) t = inorder-plug p (node t e other) ∙ simp append_assoc
inorder-plug (went_right e other ∷ p) t = inorder-plug p (node other e t) ∙ simp append_assoc

-- Where the search ends, the tree below and the parents are the tree at the start.
pub plug-descend :
    (k : Bytes) (t : Tree) (p : Parents) → plug (descend k t p).0 (descend k t p).1 ≡ plug p t
unfolding descend plug
plug-descend k nil p = refl
plug-descend k (node l e r) p =
    ground (arith, plug-descend k l (went_left e r ∷ p), plug-descend k r (went_right e l ∷ p))

-- The entries around the place where the search ends are those of the tree at the start.
pub inorder-descend :
    (k : Bytes) (t : Tree)
    → inorder t
      ≡ before (descend k t []).0 ++ (inorder (descend k t []).1 ++ after (descend k t []).0)
unfolding plug
inorder-descend k t =
    ap inorder (sym (plug-descend k t [])) ∙ inorder-plug (descend k t []).0 (descend k t []).1

-- Rotating a node up keeps the order of the entries.
pub inorder-bubble :
    (l : Tree) (e : Entry) (r : Tree) (p : Parents)
    → inorder (bubble l e r p) ≡ before p ++ ((inorder l ++ (e ∷ inorder r)) ++ after p)
unfolding bubble
inorder-bubble l e r [] = sym (append-nil _)
inorder-bubble l e r (went_left pe other ∷ p) = elim (Bool-cases (leb pe.priority e.priority)) [
  | inl stop ↦ rw (stop, bubble) (inorder-plug (went_left pe other ∷ p) (node l e r))
  | inr on ↦ rw (on, bubble) (inorder-bubble l e (node r pe other) p ∙ simp append_assoc)
]
inorder-bubble l e r (went_right pe other ∷ p) = elim (Bool-cases (leb pe.priority e.priority)) [
  | inl stop ↦ rw (stop, bubble) (inorder-plug (went_right pe other ∷ p) (node l e r))
  | inr on ↦ rw (on, bubble) (inorder-bubble (node other pe l) e r p ∙ simp append_assoc)
]

-- Sinking a node keeps the order of the other entries.
pub inorder-sink :
    (l r : Tree) (p : Parents)
    → before (sink l r p) ++ after (sink l r p) ≡ before p ++ (inorder l ++ (inorder r ++ after p))
unfolding sink
inorder-sink nil nil p = refl
inorder-sink nil (node rl re rr) p = inorder-sink nil rl (went_left re rr ∷ p) ∙ simp append_assoc
inorder-sink (node ll le lr) nil p = inorder-sink lr nil (went_right le ll ∷ p) ∙ simp append_assoc
inorder-sink (node ll le lr) (node rl re rr) p = elim (Bool-cases (leb re.priority le.priority)) [
  | inl up ↦
      rw (up, sink) (inorder-sink lr (node rl re rr) (went_right le ll ∷ p) ∙ simp append_assoc)
  | inr up ↦
      rw (up, sink) (inorder-sink (node ll le lr) rl (went_left re rr ∷ p) ∙ simp append_assoc)
]
