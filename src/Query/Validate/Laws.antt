-- ===== src/Query/Validate/Laws.antt =====
-- dsl.go: what `validateAST` takes, and how `ExtractFieldInfo` and the SQL builder agree.
use blazelog.Base.{
  ℕ, ◌+◌, ◌≤◌, ◌≡◌, refl, ap, ◌∙◌, inl, inr, ◌↔◌, String, none, some, List, [], ◌∷◌, ltb, max,
  arith, Bool-cases, Option-cases, le→ltb,
}
use blazelog.Query.Ast.{
  Library, Node, binary, unary, identifier, string_node, integer_node, float_node, bool_node,
  array_node, constant, call, member, nil_node, other_node, Nodes, no_nodes, cons,
}
use blazelog.Query.Fields.{FieldDef}
use blazelog.Query.Validate.{
  Refusal, joined, measure, measure_all, node_error, visit_each, complexity_error, validate,
  max_ast_depth, max_ast_nodes,
}

module _ (l : Library) where
  unfoldable mutual
    -- The longest way down, and the number of nodes, where a callee and a property count as nothing and a
    -- node of another kind as one, whatever stands in it.
    pub depth : Node l.Float l.Opaque → ℕ
    depth (binary op a b) = 1 + max (depth a) (depth b)
    depth (unary op a) = 1 + depth a
    depth (array_node nodes) = 1 + depth_all nodes
    depth (call callee arguments) = 1 + depth_all arguments
    depth (member base property) = 1 + depth base
    depth _ = 1

    pub depth_all : Nodes l.Float l.Opaque → ℕ
    depth_all no_nodes = 0
    depth_all (cons n rest) = max (depth n) (depth_all rest)

  unfoldable mutual
    pub size : Node l.Float l.Opaque → ℕ
    size (binary op a b) = 1 + (size a + size b)
    size (unary op a) = 1 + size a
    size (array_node nodes) = 1 + size_all nodes
    size (call callee arguments) = 1 + size_all arguments
    size (member base property) = 1 + size base
    size _ = 1

    pub size_all : Nodes l.Float l.Opaque → ℕ
    size_all no_nodes = 0
    size_all (cons n rest) = size n + size_all rest

  abbrev Is : ℕ × ℕ → ℕ → ℕ → Type 0
  Is p m k = (p.0 ≡ m) × (p.1 ≡ k)

  joined-Is :
      (m k m' k' : ℕ) (p q : ℕ × ℕ) → Is p m k → Is q m' k' → Is (joined l p q) (max m m') (k + k')
  joined-Is m k m' k' p q e f = elim (Bool-cases (ltb p.0 q.0)) [
    | inl lt ↦ rw lt (ground (arith), omega arith)
    | inr ge ↦ rw ge (ground (arith), omega arith)
  ]

  mutual
    unfolding measure depth size

    measure-Is : (n : Node l.Float l.Opaque) (d : ℕ) → Is (measure l n d) (d + depth n) (size n)
    measure-Is (binary op a b) d =
        let p =
          joined-Is (d + 1) 1 (d + 1 + depth a) (size a) (d + 1, 1) _ (refl, refl)
            (measure-Is a (d + 1)) in
        let q = joined-Is _ _ (d + 1 + depth b) (size b) _ _ p (measure-Is b (d + 1)) in
        (q.0 ∙ ground (arith), q.1 ∙ omega arith)
    measure-Is (unary op a) d =
        let p =
          joined-Is (d + 1) 1 (d + 1 + depth a) (size a) (d + 1, 1) _ (refl, refl)
            (measure-Is a (d + 1)) in
        (p.0 ∙ ground (arith), p.1)
    measure-Is (array_node nodes) d =
        let p = measure_all-Is nodes d (d + 1) 1 (d + 1, 1) (refl, refl) (omega arith) in
        (p.0 ∙ ground (arith), p.1)
    measure-Is (call callee nodes) d =
        let p = measure_all-Is nodes d (d + 1) 1 (d + 1, 1) (refl, refl) (omega arith) in
        (p.0 ∙ ground (arith), p.1)
    measure-Is (member a property) d =
        let p =
          joined-Is (d + 1) 1 (d + 1 + depth a) (size a) (d + 1, 1) _ (refl, refl)
            (measure-Is a (d + 1)) in
        (p.0 ∙ ground (arith), p.1)
    measure-Is (identifier name) d = (refl, refl)
    measure-Is (string_node s) d = (refl, refl)
    measure-Is (integer_node i) d = (refl, refl)
    measure-Is (float_node f) d = (refl, refl)
    measure-Is (bool_node b) d = (refl, refl)
    measure-Is (constant c) d = (refl, refl)
    measure-Is nil_node d = (refl, refl)
    measure-Is other_node d = (refl, refl)

    measure_all-Is :
        (nodes : Nodes l.Float l.Opaque) (d m k : ℕ) (p : ℕ × ℕ)
        → Is p m k
        → d + 1 ≤ m
        → Is (measure_all l nodes d p) (max m (d + 1 + depth_all nodes)) (k + size_all nodes)
    measure_all-Is no_nodes d m k p e le = (e.0 ∙ ground (arith), e.1 ∙ omega arith)
    measure_all-Is (cons n rest) d m k p e le =
        let q = joined-Is m k (d + 1 + depth n) (size n) p _ e (measure-Is n (d + 1)) in
        let r = measure_all-Is rest d _ _ _ q (ground (arith)) in
        (r.0 ∙ ground (arith), r.1 ∙ omega arith)

  -- `measureASTComplexity` computes the nesting depth of the tree and its number of nodes, from any
  -- current depth.
  measure_lem : (n : Node l.Float l.Opaque) (d : ℕ) → measure l n d ≡ (d + depth n, size n)
  measure_lem n d =
      let e = measure-Is n d in
      ap (λ x. (x, (measure l n d).1)) e.0 ∙ ap (λ y. (d + depth n, y)) e.1

  module _ (fields : List (String × FieldDef)) where
    abbrev pub Each : (Node l.Float l.Opaque → Type 0) → List (Node l.Float l.Opaque) → Type 0
    Each P [] = Unit {0}
    Each P (n ∷ rest) = P n × Each P rest

    abbrev pub Accepted : Node l.Float l.Opaque → Type 0
    Accepted n = node_error l fields n ≡ none

    visit_each_stays :
        (nodes : List (Node l.Float l.Opaque)) (e : Refusal)
        → visit_each l fields nodes (some e) ≡ some e
    unfolding visit_each
    visit_each_stays [] e = refl
    visit_each_stays (n ∷ rest) e = visit_each_stays rest e

    visit_each_sound :
        (nodes : List (Node l.Float l.Opaque))
        → visit_each l fields nodes none ≡ none
        → Each Accepted nodes
    unfolding visit_each
    visit_each_sound [] e = tt
    visit_each_sound (n ∷ rest) e = elim (Option-cases (node_error l fields n)) [
      | inl fine ↦ (fine, visit_each_sound rest (rw fine at e))
      | inr (r, wrong) ↦ let e' = rw wrong at e in let s = visit_each_stays rest r in absurd (cc)
    ]

    visit_each_complete :
        (nodes : List (Node l.Float l.Opaque))
        → Each Accepted nodes
        → visit_each l fields nodes none ≡ none
    unfolding visit_each
    visit_each_complete [] h = refl
    visit_each_complete (n ∷ rest) h = rw h.0 (visit_each_complete rest h.1)

    complexity_sound :
        (p : ℕ × ℕ)
        → complexity_error l fields p ≡ none
        → (p.0 ≤ max_ast_depth) × (p.1 ≤ max_ast_nodes)
    complexity_sound p e = (ground (arith), ground (arith))

    complexity_complete :
        (p : ℕ × ℕ) → p.0 ≤ max_ast_depth → p.1 ≤ max_ast_nodes → complexity_error l fields p ≡ none
    complexity_complete p a b = rw (le→ltb _ _ a) (rw (le→ltb _ _ b) refl)

    -- Of the node and of all that stands in it, callees and properties too.
    unfoldable mutual
      pub Throughout : (Node l.Float l.Opaque → Type 0) → Node l.Float l.Opaque → Type 0
      Throughout P (binary op a b) = P (binary op a b) × Throughout P a × Throughout P b
      Throughout P (unary op a) = P (unary op a) × Throughout P a
      Throughout P (array_node nodes) = P (array_node nodes) × ThroughoutAll P nodes
      Throughout P (call callee arguments) =
          P (call callee arguments) × Throughout P callee × ThroughoutAll P arguments
      Throughout P (member base property) =
          P (member base property) × Throughout P base × Throughout P property
      Throughout P (identifier s) = P (identifier s)
      Throughout P (string_node s) = P (string_node s)
      Throughout P (integer_node i) = P (integer_node i)
      Throughout P (float_node f) = P (float_node f)
      Throughout P (bool_node b) = P (bool_node b)
      Throughout P (constant c) = P (constant c)
      Throughout P nil_node = P nil_node
      Throughout P other_node = P other_node

      pub ThroughoutAll : (Node l.Float l.Opaque → Type 0) → Nodes l.Float l.Opaque → Type 0
      ThroughoutAll P no_nodes = Unit {0}
      ThroughoutAll P (cons n rest) = Throughout P n × ThroughoutAll P rest

    module _ (walk : Node l.Float l.Opaque → List (Node l.Float l.Opaque)) where
      validate-Each :
          (n : Node l.Float l.Opaque)
          → (validate l fields walk n ≡ none)
            ↔ (Each Accepted (walk n) × (depth n ≤ max_ast_depth) × (size n ≤ max_ast_nodes))
      unfolding validate
      validate-Each n = (sound, complete)
        where
          sound :
              validate l fields walk n ≡ none
              → Each Accepted (walk n) × (depth n ≤ max_ast_depth) × (size n ≤ max_ast_nodes)
          sound e = elim (Option-cases (visit_each l fields (walk n) none)) [
            | inl fine ↦
                let m = complexity_sound (measure l n 0) (rw fine at e) in
                let q = measure-Is n 0 in (visit_each_sound (walk n) fine, omega arith, omega arith)
            | inr (r, wrong) ↦ let e' = rw wrong at e in absurd (cc)
          ]

          complete :
              Each Accepted (walk n) × (depth n ≤ max_ast_depth) × (size n ≤ max_ast_nodes)
              → validate l fields walk n ≡ none
          complete h =
              let q = measure-Is n 0 in
              rw (visit_each_complete (walk n) h.0)
                (complexity_complete (measure l n 0) (omega arith) (omega arith))

      -- When the walk visits the nodes of the tree, callees and properties too, and no other (so that
      -- nothing stands in a node of another kind), the tree passes `validateAST` exactly when `Visit` has
      -- no error for any node of the tree, and by the measure of `measureASTComplexity`, which leaves
      -- out the callees and the properties, it is at most 20 levels deep and has at most 100 nodes.
      pub validate_lem :
          (n : Node l.Float l.Opaque)
          → ((P : Node l.Float l.Opaque → Type 0) → Each P (walk n) ↔ Throughout P n)
          → (validate l fields walk n ≡ none)
            ↔ (Throughout Accepted n × (depth n ≤ max_ast_depth) × (size n ≤ max_ast_nodes))
      validate_lem n walks =
          let each = validate-Each n in
          (
            λ e. (let r = each.0 e in ((walks Accepted).0 r.0, r.1, r.2)),
            λ h. each.1 ((walks Accepted).1 h.0, h.1, h.2),
          )
