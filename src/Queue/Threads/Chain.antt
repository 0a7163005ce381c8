-- ===== src/Queue/Threads/Chain.antt =====
-- The nodes of a queue that only grows, and what linking one more does to them.
use memif_user_release.Base.{
  ℕ, ◌≡◌, ◌≢◌, refl, ◌<◌, ◌≤◌, ◌⊎◌, List, [], ◌∷◌, ◌++◌, arith, inl, inr, All, All-append, sym, ◌∙◌,
  subst, ap,
}
use memif_user_release.Desc.{Desc, bad_index}
use memif_user_release.Region.View.{Payload, payload}

-- Who may touch a descriptor: it is a node of the queue, a thread has it, or a thread is sending it.
pub data Holder : Type 0 where
  node : Holder
  by : ℕ → Holder
  sender : ℕ → Holder
  outside : Holder

abbrev pub Node : Type 0
Node = ℕ × Payload

abbrev pub In : Node → List Node → Type 0
In c [] = ⊥
In c (d ∷ ds) = (c ≡ d) ⊎ In c ds

-- One of the nodes is at the address.
abbrev pub At : ℕ → List Node → Type 0
At a [] = ⊥
At a (c ∷ cs) = (a ≡ c.0) ⊎ At a cs

pub At-append : (a : ℕ) (cs ds : List Node) → At a cs → At a (cs ++ ds)
At-append a [] ds h = absurd h
At-append a (c ∷ cs) ds (inl e) = inl e
At-append a (c ∷ cs) ds (inr h) = inr (At-append a cs ds h)

pub At-last : (c : Node) (cs : List Node) → At c.0 (cs ++ c ∷ [])
At-last c [] = inl refl
At-last c (d ∷ cs) = inr (At-last c cs)

pub In-append : (c : Node) (cs ds : List Node) → In c cs → In c (cs ++ ds)
In-append c [] ds h = absurd h
In-append c (d ∷ cs) ds (inl e) = inl e
In-append c (d ∷ cs) ds (inr h) = inr (In-append c cs ds h)

pub In-last : (c : Node) (cs : List Node) → In c (cs ++ c ∷ [])
In-last c [] = inl refl
In-last c (d ∷ cs) = inr (In-last c cs)

module _ (n k : ℕ) (h : ℕ → Holder) (m : ℕ → Desc) where
  -- A node is in the array, has its payload, and a link of the queue's color.
  abbrev pub IsNode : Node → Type 0
  IsNode c = (c.0 < n) × (h c.0 ≡ node) × (payload (m c.0) ≡ c.1) × ((m c.0).next.color ≡ k)

  -- From index `i` the links lead through the nodes to the bad index.
  abbrev pub Leads : ℕ → List Node → Type 0
  Leads i [] = i ≡ bad_index
  Leads i (c ∷ cs) = (i ≡ c.0) × IsNode c × All (λ d. d.0 ≢ c.0) cs × Leads (m c.0).next.index cs

  pub Leads-At :
      (a i : ℕ) (cs : List Node)
      → Leads i cs
      → At a cs
      → (a < n) × (h a ≡ node) × ((m a).next.color ≡ k)
  Leads-At a i [] l at = absurd at
  Leads-At a i (c ∷ cs) l (inl e) =
      subst (λ b. (b < n) × (h b ≡ node) × ((m b).next.color ≡ k)) (sym e) (l.1.0, l.1.1, l.1.3)
  Leads-At a i (c ∷ cs) l (inr at) = Leads-At a (m c.0).next.index cs l.3 at

  first-At : (i : ℕ) (cs : List Node) → Leads i cs → i ≢ bad_index → At i cs
  first-At i [] l more = absurd (more l)
  first-At i (c ∷ cs) l more = inl l.0

  -- The link of a node leads to a node.
  pub next-At :
      (a i : ℕ) (cs : List Node)
      → Leads i cs
      → At a cs
      → (m a).next.index ≢ bad_index
      → At (m a).next.index cs
  next-At a i [] l at more = absurd at
  next-At a i (c ∷ cs) l (inl e) more = inr (
      subst (λ b. At (m b).next.index cs) (sym e)
        (first-At (m c.0).next.index cs l.3 (subst (λ b. (m b).next.index ≢ bad_index) e more)))
  next-At a i (c ∷ cs) l (inr at) more = inr (next-At a (m c.0).next.index cs l.3 at more)

  -- All nodes are other descriptors than one that is no node.
  pub other-node : (a i : ℕ) (cs : List Node) → Leads i cs → h a ≢ node → All (λ d. a ≢ d.0) cs
  other-node a i [] l no_node = tt
  other-node a i (c ∷ cs) l no_node =
      (λ e. no_node (ap h e ∙ l.1.1), other-node a (m c.0).next.index cs l.3 no_node)

module _ (n k : ℕ) (h h' : ℕ → Holder) (m m' : ℕ → Desc) where
  -- What happens to other descriptors leaves the nodes where they are.
  pub Leads-frame :
      (i : ℕ) (cs : List Node)
      → ((a : ℕ) → h a ≡ node → (h' a ≡ node) × (m' a ≡ m a))
      → Leads n k h m i cs
      → Leads n k h' m' i cs
  Leads-frame i [] same l = l
  Leads-frame i (c ∷ cs) same l =
      let (still, whole) = same c.0 l.1.1 in
      (
        l.0,
        (l.1.0, still, ap payload whole ∙ l.1.2, ap (λ (d : Desc). d.next.color) whole ∙ l.1.3),
        l.2,
        subst (λ (d : Desc). Leads n k h' m' d.next.index cs) (sym whole)
            (Leads-frame (m c.0).next.index cs same l.3),
      )

  -- Node `t` is linked to a new one; all other nodes are left alone.
  pub record Links (t : ℕ) (new : Node) : Type 0 where
    pub last : (m t).next.index ≡ bad_index
    pub no_node : h new.0 ≢ node
    pub others : (a : ℕ) → a ≢ t → h a ≡ node → (h' a ≡ node) × (m' a ≡ m a)
    pub still : h' t ≡ node
    pub kept : payload (m' t) ≡ payload (m t)
    pub names : (m' t).next.index ≡ new.0
    pub tint : (m' t).next.color ≡ k
    pub is_new : IsNode n k h' m' new
    pub ends : (m' new.0).next.index ≡ bad_index

  At-ne : (t a : ℕ) (cs : List Node) → At t cs → All (λ d. d.0 ≢ a) cs → a ≢ t
  At-ne t a [] at f = absurd at
  At-ne t a (c ∷ cs) (inl e) f = λ x. f.0 (sym e ∙ sym x)
  At-ne t a (c ∷ cs) (inr at) f = At-ne t a cs at f.1

  module _ (small : n ≤ bad_index) (t : ℕ) (new : Node) (s : Links t new) where
    -- What is known of the node, by its address.
    at_t :
        (a : ℕ)
        → t ≡ a
        → ((m a).next.index ≡ bad_index)
          × (h' a ≡ node)
          × (payload (m' a) ≡ payload (m a))
          × ((m' a).next.index ≡ new.0)
          × ((m' a).next.color ≡ k)
    at_t a e =
        subst
          (λ b.
            ((m b).next.index ≡ bad_index)
            × (h' b ≡ node)
            × (payload (m' b) ≡ payload (m b))
            × ((m' b).next.index ≡ new.0)
            × ((m' b).next.color ≡ k))
          e (s.last, s.still, s.kept, s.names, s.tint)

    new-ne : (a : ℕ) → h a ≡ node → new.0 ≢ a
    new-ne a own e = s.no_node (ap h e ∙ own)

    pub Leads-link :
        (i : ℕ) (cs : List Node) → Leads n k h m i cs → At t cs → Leads n k h' m' i (cs ++ new ∷ [])
    Leads-link i [] l at = absurd at
    Leads-link i (c ∷ []) l (inl e) =
        let (last, still, kept, names, tint) = at_t c.0 e in
        (
          l.0,
          (l.1.0, still, kept ∙ l.1.2, tint),
          (new-ne c.0 l.1.1, tt),
          (names, s.is_new, tt, s.ends),
        )
    Leads-link i (c ∷ d ∷ cs) l (inl e) =
        absurd (omega (arith, l.3.0, l.3.1.0, (at_t c.0 e).0, small))
    Leads-link i (c ∷ cs) l (inr at) =
        let (still, whole) = s.others c.0 (At-ne t c.0 cs at l.2) l.1.1 in
        (
          l.0,
          (l.1.0, still, ap payload whole ∙ l.1.2, ap (λ (d : Desc). d.next.color) whole ∙ l.1.3),
          All-append (λ d. d.0 ≢ c.0) cs (new ∷ []) l.2 (new-ne c.0 l.1.1, tt),
          subst (λ (d : Desc). Leads n k h' m' d.next.index (cs ++ new ∷ [])) (sym whole)
              (Leads-link (m c.0).next.index cs l.3 at),
        )
