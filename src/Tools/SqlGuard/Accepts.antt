-- ===== src/Tools/SqlGuard/Accepts.antt =====
-- Which queries `validate_and_wrap_sql` accepts. The guard looks at the bare name of a table, so that
-- a table of any schema passes where its name is an allowed one.
use lineageiq.Common.{
  ℕ, ◌≤◌, String, Bool, true, false, not, ◌&&◌, ◌||◌, none, List, [], ◌∷◌, All, any, has, distinct,
  has-keep, has-distinct, is_nil, is_nil-has, is_nil_of_has, length, code_points, ltb, str_eq, ◌≡◌,
  ◌≢◌, ◌↔◌, ◌⊎◌, inl, inr, refl, sym, ap, ◌∙◌, subst, arith, eq_iff, Bool-cases, Option-cases,
}
use lineageiq.Effects.{Result, ok, raised}
use lineageiq.Tools.SqlGuard.{
  Sqlglot, allowed_tables, calls_anonymous, calls_function, node_error, walk_error, illegal_tables,
  wrap, is_one_of, forbidden_nodes, check_statement, check_parsed, validate_and_wrap_sql,
}

-- The classes of statements that write, change the schema or the session, or run commands.
abbrev pub writing_classes : List String
writing_classes =
    "Insert" ∷ "Update" ∷ "Delete" ∷ "Drop" ∷ "Alter" ∷ "Create" ∷ "Command" ∷ "Into" ∷ "Set"
    ∷ "Transaction" ∷ "Commit" ∷ "Rollback" ∷ []

-- The classes of queries.
abbrev pub query_classes : List String
query_classes = "Select" ∷ "Union" ∷ "Subquery" ∷ "With" ∷ "Paren" ∷ []

any_none : (p : String → Bool) (cs : List String) → (any p cs ≡ false) ↔ All (λ c. p c ≡ false) cs
any_none p [] = (λ h. tt, λ h. refl)
any_none p (c ∷ cs) = elim (Bool-cases (p c)) [
  | inl e ↦ (λ h. cc (rw e at h), λ h. cc (e, h.0))
  | inr e ↦ (λ h. (e, (any_none p cs).0 (rw e at h)), λ h. rw e ((any_none p cs).1 h.1))
]

module _ (sg : Sqlglot) where
  -- No construct that writes, and no call of a forbidden function.
  pub record IsHarmless (e : sg.Expression) : Type 0 where
    pub construct : All (λ c. sg.is_instance e c ≡ false) writing_classes
    pub anonymous : calls_anonymous sg (sg.anonymous_name e) ≡ false
    pub function : calls_function sg (sg.function_name e) ≡ false

  -- A statement that may run: a query, harmless in every part, that reads allowed tables and its
  -- own common table expressions.
  pub record IsReadable (stmt : sg.Expression) : Type 0 where
    pub top : any (λ c. sg.is_instance stmt c) query_classes ≡ true
    pub harmless : All IsHarmless (sg.walk stmt)
    pub tables :
        (t : String)
        → has t (sg.table_names stmt) ≡ true
        → t ≢ ""
        → (has t allowed_tables ≡ true) ⊎ (has t (sg.cte_names stmt) ≡ true)

  -- The query is a single readable statement, not blank and not too long, and the answer is that
  -- statement with its cap.
  pub record IsAccepted (query : String) (row_limit max_length : ℕ) (wrapped : String)
      : Type 0 where
    pub stmt : sg.Expression
    pub nonempty : str_eq query "" || str_eq (sg.strip query) "" ≡ false
    pub short : length (code_points query) ≤ max_length
    pub single : sg.parse query ≡ ok (stmt ∷ [])
    pub readable : IsReadable stmt
    pub capped : wrapped ≡ wrap sg row_limit stmt

  node_error-IsHarmless : (e : sg.Expression) → (node_error sg e ≡ none) ↔ IsHarmless e
  unfolding node_error
  node_error-IsHarmless e = (
    λ h.
        let facts = facts_of h in
        record {
          construct = (any_none (λ c. sg.is_instance e c) writing_classes).0 facts.0;
          anonymous = facts.1;
          function = facts.2;
        },
    λ h.
        let construct = (any_none (λ c. sg.is_instance e c) writing_classes).1 h.construct in
        none_of construct h.anonymous h.function,
  )
    where
      facts_of :
          node_error sg e ≡ none
          → (is_one_of sg forbidden_nodes e ≡ false)
            × (calls_anonymous sg (sg.anonymous_name e) ≡ false)
            × (calls_function sg (sg.function_name e) ≡ false)
      facts_of h = ground arith

      none_of :
          is_one_of sg forbidden_nodes e ≡ false
          → calls_anonymous sg (sg.anonymous_name e) ≡ false
          → calls_function sg (sg.function_name e) ≡ false
          → node_error sg e ≡ none
      none_of a b c = rw (a, b, c) refl

  walk_error-IsHarmless : (es : List sg.Expression) → (walk_error sg es ≡ none) ↔ All IsHarmless es
  unfolding walk_error
  walk_error-IsHarmless [] = (λ h. tt, λ h. refl)
  walk_error-IsHarmless (e ∷ es) = elim (Option-cases (node_error sg e)) [
    | inl q ↦ (
      λ h. ((node_error-IsHarmless e).0 q, (walk_error-IsHarmless es).0 (rw (q, walk_error) at h)),
      λ h. rw (q, walk_error) ((walk_error-IsHarmless es).1 h.1),
    )
    | inr (error, q) ↦
        (λ h. cc (rw (q, walk_error) at h), λ h. cc (q, (node_error-IsHarmless e).1 h.0))
  ]

  has-illegal_tables :
      (stmt : sg.Expression) (t : String)
      → has t (illegal_tables sg stmt) ≡ (
          (not (str_eq t "") && (not (has t allowed_tables) && not (has t (sg.cte_names stmt))))
          && has t (sg.table_names stmt))
  has-illegal_tables stmt t =
      has-keep t
        (λ t. not (str_eq t "") && (not (has t allowed_tables) && not (has t (sg.cte_names stmt))))
        (distinct (sg.table_names stmt))
      ∙ ap
          (λ b.
            (not (str_eq t "") && (not (has t allowed_tables) && not (has t (sg.cte_names stmt))))
            && b)
          (has-distinct t (sg.table_names stmt))

  legal_of :
      (blank allowed cte read : Bool)
      → ((not blank && (not allowed && not cte)) && read) ≡ false
      → read ≡ true
      → blank ≡ false
      → (allowed ≡ true) ⊎ (cte ≡ true)
  legal_of blank true cte read h r b = inl refl
  legal_of blank false true read h r b = inr refl
  legal_of blank false false read h r b = absurd (ground arith)

  not_illegal_of :
      (blank allowed cte read : Bool)
      → (read ≡ true → blank ≡ false → (allowed ≡ true) ⊎ (cte ≡ true))
      → ((not blank && (not allowed && not cte)) && read) ≡ false
  not_illegal_of true allowed cte read h = refl
  not_illegal_of false true cte read h = refl
  not_illegal_of false false true read h = refl
  not_illegal_of false false false false h = refl
  not_illegal_of false false false true h = elim (h refl refl) [ inl e ↦ cc | inr e ↦ cc ]

  -- No table is illegal exactly when every table that is named is allowed or an expression's own.
  tables_iff :
      (stmt : sg.Expression)
      → (is_nil (illegal_tables sg stmt) ≡ true) ↔ (
          (t : String)
          → has t (sg.table_names stmt) ≡ true
          → t ≢ ""
          → (has t allowed_tables ≡ true) ⊎ (has t (sg.cte_names stmt) ≡ true))
  tables_iff stmt = (
    λ h t named nonempty.
        legal_of (str_eq t "") (has t allowed_tables) (has t (sg.cte_names stmt))
          (has t (sg.table_names stmt))
          (sym (has-illegal_tables stmt t) ∙ is_nil-has (illegal_tables sg stmt) t h) named
          (not_blank t nonempty),
    λ h. is_nil_of_has (illegal_tables sg stmt) λ t.
        has-illegal_tables stmt t
        ∙ not_illegal_of (str_eq t "") (has t allowed_tables) (has t (sg.cte_names stmt))
            (has t (sg.table_names stmt)) λ named q. h t named (λ p. cc (q, (eq_iff t "").1 p)),
  )
    where
      not_blank : (t : String) → t ≢ "" → str_eq t "" ≡ false
      not_blank t n = elim (Bool-cases (str_eq t "")) [
        | inl e ↦ absurd (n ((eq_iff t "").0 e))
        | inr e ↦ e
      ]

  check_statement-IsReadable :
      (row_limit : ℕ) (stmt : sg.Expression) (wrapped : String)
      → (check_statement sg row_limit stmt ≡ ok wrapped)
        ↔ (IsReadable stmt × (wrapped ≡ wrap sg row_limit stmt))
  unfolding check_statement
  check_statement-IsReadable row_limit stmt wrapped = (λ h. readable_of h, λ r. accepted_of r.0 r.1)
    where
      readable_of :
          check_statement sg row_limit stmt ≡ ok wrapped
          → IsReadable stmt × (wrapped ≡ wrap sg row_limit stmt)
      readable_of h = elim (Bool-cases (is_one_of sg query_classes stmt)) [
        | inr e ↦ cc (rw (e, check_statement) at h)
        | inl e ↦ elim (Option-cases (walk_error sg (sg.walk stmt))) [
          | inr (error, w) ↦ cc (rw (e, w, check_statement) at h)
          | inl w ↦ elim (Bool-cases (is_nil (illegal_tables sg stmt))) [
            | inr n ↦ cc (rw (e, w, n, check_statement) at h)
            | inl n ↦ (
              record {
                top = e;
                harmless = (walk_error-IsHarmless (sg.walk stmt)).0 w;
                tables = (tables_iff stmt).0 n;
              },
              cc (rw (e, w, n, check_statement) at h),
            )
          ]
        ]
      ]

      accepted_of :
          IsReadable stmt
          → wrapped ≡ wrap sg row_limit stmt
          → check_statement sg row_limit stmt ≡ ok wrapped
      accepted_of r q =
          let w = (walk_error-IsHarmless (sg.walk stmt)).1 r.harmless in
          let n = (tables_iff stmt).1 r.tables in
          rw (r.top, w, n, check_statement) (ap (λ s. ok s) (sym q))

  -- The statements of an accepted query.
  parsed_iff :
      (row_limit : ℕ) (wrapped : String) (r : Result (List sg.Expression))
      → (check_parsed sg row_limit r ≡ ok wrapped) ↔ (
          (stmt : sg.Expression) × (r ≡ ok (stmt ∷ []))
          × IsReadable stmt
          × (wrapped ≡ wrap sg row_limit stmt))
  unfolding check_parsed
  parsed_iff row_limit wrapped (raised e) = (λ h. cc, λ x. cc (x.1))
  parsed_iff row_limit wrapped (ok []) = (λ h. cc, λ x. cc (x.1))
  parsed_iff row_limit wrapped (ok (s ∷ t ∷ ss)) = (λ h. cc, λ x. cc (x.1))
  parsed_iff row_limit wrapped (ok (s ∷ [])) = (
    λ h.
        let (readable, capped) = (check_statement-IsReadable row_limit s wrapped).0 h in
        (s, refl, readable, capped),
    λ (stmt, e, readable, capped).
        let same : stmt ≡ s = cc (e) in
        subst (λ t. check_statement sg row_limit t ≡ ok wrapped) same
          ((check_statement-IsReadable row_limit stmt wrapped).1 (readable, capped)),
  )

  -- The guard answers with a wrapped query exactly when the query is not blank, not longer than the
  -- limit, and a single statement whose class is that of a query, that contains none of the twelve
  -- writing classes and no forbidden function anywhere, and whose tables have, in any schema, the
  -- bare name of an allowed table or of one of its own common table expressions; the answer is that
  -- statement in the row-capped wrapper. In every other case it raises.
  pub validate_and_wrap_sql-IsAccepted :
      (query : String) (row_limit max_length : ℕ) (wrapped : String)
      → (validate_and_wrap_sql sg query row_limit max_length ≡ ok wrapped)
        ↔ IsAccepted query row_limit max_length wrapped
  unfolding validate_and_wrap_sql
  validate_and_wrap_sql-IsAccepted query row_limit max_length wrapped = (λ h. of_ok h, λ a. ok_of a)
    where
      of_ok :
          validate_and_wrap_sql sg query row_limit max_length ≡ ok wrapped
          → IsAccepted query row_limit max_length wrapped
      of_ok h = elim (Bool-cases (str_eq query "" || str_eq (sg.strip query) "")) [
        | inl e ↦ cc (rw (e, validate_and_wrap_sql) at h)
        | inr e ↦ elim (Bool-cases (ltb max_length (length (code_points query)))) [
          | inl l ↦ cc (rw (e, l, validate_and_wrap_sql) at h)
          | inr l ↦
              let (stmt, single, readable, capped) =
                (parsed_iff row_limit wrapped (sg.parse query)).0
                  (rw (e, l, validate_and_wrap_sql) at h) in
              record {
                stmt = stmt;
                nonempty = e;
                short = ground arith;
                single = single;
                readable = readable;
                capped = capped;
              }
        ]
      ]

      ok_of :
          IsAccepted query row_limit max_length wrapped
          → validate_and_wrap_sql sg query row_limit max_length ≡ ok wrapped
      ok_of a =
          let long : ltb max_length (length (code_points query)) ≡ false =
            ground (arith, a.short) in
          rw (a.nonempty, long, validate_and_wrap_sql)
            ((parsed_iff row_limit wrapped (sg.parse query)).1
              (a.stmt, a.single, a.readable, a.capped))
