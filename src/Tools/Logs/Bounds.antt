-- ===== src/Tools/Logs/Bounds.antt =====
-- Which records the log tool of backend/app/tools/log_tool.py answers with.
use lineageiq.Common.{
  ℕ, ◌≤◌, ◌<◌, String, Bool, true, ◌||◌, Option, none, some, List, [], ◌∷◌, keep, any, has, take,
  length, length-take-le, All, All-mono, leb, leb→le, is_nil, str_eq, eq_iff, contains_lower, inl,
  inr, ◌⊎◌, ◌↔◌, ◌≡◌, refl, sym, ap, subst, arith, &&-left, &&-right, &&-both,
}
use lineageiq.Effects.{Error, Result, ok, raised}
use lineageiq.Database.{SystemLog, Payload}
use lineageiq.Environment.{Env}
use lineageiq.Tools.{int_arg, time_arg, min_of}
use lineageiq.Tools.Logs.{
  LogQuery, log_query, selects, mentions, order_logs, all_matches, matched_logs,
}
use lineageiq.Tools.Logs.Ordered.{
  Among, Ascending, All-order_logs, All-take, All-keep, each_stands, order_logs-Ascending,
  take-Ascending, keep-Ascending, Among-order_logs, Among-keep, take_short, take_all,
  length-order_logs, length-keep,
}

-- Of the service, within the times, of a level and with one of the terms that are asked for, where
-- these are given.
pub record IsAsked (q : LogQuery) (l : SystemLog) : Type 0 where
  pub service : (s : String) → q.service ≡ some s → l.service ≡ s
  pub from_start : (t : ℕ) → q.start ≡ some t → t ≤ l.timestamp
  pub to_end : (t : ℕ) → q.end ≡ some t → l.timestamp ≤ t
  pub level : (q.levels ≡ []) ⊎ (has l.log_level q.levels ≡ true)
  pub term : (q.terms ≡ []) ⊎ (any (λ t. contains_lower t l.message) q.terms ≡ true)

-- The answer to a query of the stored records: at most as many as asked for and at most 100, each of
-- them a stored record as asked for, in the order of time; and every such record, where fewer than
-- asked for were found among at most 500 stored ones.
pub record IsSearch (q : LogQuery) (logs found : List SystemLog) : Type 0 where
  pub bounded : length found ≤ q.max_results
  pub capped : length found ≤ 100
  pub stored : All (λ l. Among l logs) found
  pub matching : All (IsAsked q) found
  pub ascending : Ascending found
  pub complete :
      length logs ≤ 500
      → length found < q.max_results
      → (l : SystemLog) → Among l logs
      → IsAsked q l
      → Among l found

given_iff :
    {A : Type 0} (test : A → Bool) (P : A → Type 0) (o : Option A)
    → ((a : A) → (test a ≡ true) ↔ P a)
    → ((elim o [ none ↦ true | some a ↦ test a ]) ≡ true) ↔ ((a : A) → o ≡ some a → P a)
given_iff test P none h = (λ _ a e. cc, λ _. refl)
given_iff test P (some b) h =
    (λ e a q. let s : b ≡ a = cc in subst P s ((h b).0 e), λ k. (h b).1 (k b refl))

is_nil_or : (xs : List String) (b : Bool) → (is_nil xs || b ≡ true) ↔ ((xs ≡ []) ⊎ (b ≡ true))
is_nil_or [] b = (λ _. inl refl, λ _. refl)
is_nil_or (x ∷ xs) b = (λ h. inr h, λ k. elim k [ inl e ↦ cc | inr e ↦ e ])

module _ (q : LogQuery) (l : SystemLog) where
  selected_iff : (selects q l ≡ true) ↔ (
      ((s : String) → q.service ≡ some s → l.service ≡ s)
      × ((t : ℕ) → q.start ≡ some t → t ≤ l.timestamp)
      × ((t : ℕ) → q.end ≡ some t → l.timestamp ≤ t)
      × ((q.levels ≡ []) ⊎ (has l.log_level q.levels ≡ true)))
  selected_iff = (
    λ h.
        let h1 = &&-right _ _ h in
        let h2 = &&-right _ _ h1 in
        (
          service_iff.0 (&&-left _ _ h),
          start_iff.0 (&&-left _ _ h1),
          end_iff.0 (&&-left _ _ h2),
          (is_nil_or q.levels (has l.log_level q.levels)).0 (&&-right _ _ h2),
        ),
    λ (a, b, c, d). &&-both _ _ (service_iff.1 a) (
        &&-both _ _ (start_iff.1 b)
          (&&-both _ _ (end_iff.1 c) ((is_nil_or q.levels (has l.log_level q.levels)).1 d))),
  )
    where
      service_iff :
          ((elim q.service [ none ↦ true | some s ↦ str_eq l.service s ]) ≡ true)
          ↔ ((s : String) → q.service ≡ some s → l.service ≡ s)
      service_iff =
          given_iff (λ s. str_eq l.service s) (λ s. l.service ≡ s) q.service
            (λ s. eq_iff l.service s)

      start_iff :
          ((elim q.start [ none ↦ true | some t ↦ leb t l.timestamp ]) ≡ true)
          ↔ ((t : ℕ) → q.start ≡ some t → t ≤ l.timestamp)
      start_iff =
          given_iff (λ t. leb t l.timestamp) (λ t. t ≤ l.timestamp) q.start
            (λ t. (λ h. leb→le t l.timestamp h, λ h. ground (arith, h)))

      end_iff :
          ((elim q.end [ none ↦ true | some t ↦ leb l.timestamp t ]) ≡ true)
          ↔ ((t : ℕ) → q.end ≡ some t → l.timestamp ≤ t)
      end_iff =
          given_iff (λ t. leb l.timestamp t) (λ t. l.timestamp ≤ t) q.end
            (λ t. (λ h. leb→le l.timestamp t h, λ h. ground (arith, h)))

  query_holds : (selects q l ≡ true) × (mentions q l ≡ true) → IsAsked q l
  query_holds (s, m) =
      let (service, from_start, to_end, level) = selected_iff.0 s in
      record {
        service = service;
        from_start = from_start;
        to_end = to_end;
        level = level;
        term = (is_nil_or q.terms (any (λ t. contains_lower t l.message) q.terms)).0 m;
      }

  selected_when : IsAsked q l → selects q l ≡ true
  selected_when a = selected_iff.1 (a.service, a.from_start, a.to_end, a.level)

  mentioned_when : IsAsked q l → mentions q l ≡ true
  mentioned_when a = (is_nil_or q.terms (any (λ t. contains_lower t l.message) q.terms)).1 a.term

Result-cases : {A : Type 0} (r : Result A) → ((a : A) × (r ≡ ok a)) ⊎ ((e : Error) × (r ≡ raised e))
Result-cases (ok a) = inl (a, refl)
Result-cases (raised e) = inr (e, refl)

-- A query that is read from arguments asks for at most 100 records.
max_results_cap :
    (env : Env) (args : Payload) (q : LogQuery) → log_query env args ≡ ok q → q.max_results ≤ 100
unfolding log_query
max_results_cap env args q h = elim (Result-cases (time_arg env "start_time" args)) [
  | inr (e, f) ↦ cc (rw (f, log_query) at h)
  | inl (start, f) ↦ elim (Result-cases (time_arg env "end_time" args)) [
    | inr (e, g) ↦ cc (rw (f, g, log_query) at h)
    | inl (end, g) ↦ elim (Result-cases (int_arg env "max_results" 50 args)) [
      | inr (e, k) ↦ cc (rw (f, g, k, log_query) at h)
      | inl (n, k) ↦
          capped n _ (
            ap (λ r. elim r [ ok q ↦ q.max_results | raised e ↦ 0 ]) (rw (f, g, k, log_query) at h))
    ]
  ]
]
  where
    capped : (n m : ℕ) → min_of n 100 ≡ m → m ≤ 100
    capped n m e = ground (arith, e)

-- The answer to a query that was read from the arguments of a call has at most as many records as it
-- asks for, and at most 100; they are stored records of the service, within the times, of the levels
-- and with the terms that it asks for, in the order of time. Where at most 500 records are stored and
-- fewer than asked for are found, all such records are found.
pub matched_logs-IsSearch :
    (env : Env) (args : Payload) (q : LogQuery) (logs : List SystemLog)
    → log_query env args ≡ ok q
    → IsSearch q logs (matched_logs q logs)
unfolding matched_logs all_matches
matched_logs-IsSearch env args q logs h =
    let selected = keep (selects q) logs in
    let first = take 500 (order_logs selected) in
    let kept =
      All-take (λ l. (Among l logs × (selects q l ≡ true)) × (mentions q l ≡ true)) q.max_results
        (keep (mentions q) first)
        (All-keep (λ l. Among l logs × (selects q l ≡ true)) (mentions q) first
          (All-take (λ l. Among l logs × (selects q l ≡ true)) 500 (order_logs selected)
            (All-order_logs (λ l. Among l logs × (selects q l ≡ true)) selected
              (All-keep (λ l. Among l logs) (selects q) logs (each_stands logs))))) in
    record {
      bounded = length-take-le q.max_results (keep (mentions q) first);
      capped = omega (
        arith,
        length-take-le q.max_results (keep (mentions q) first),
        max_results_cap env args q h,
      );
      stored =
          All-mono (λ l. (Among l logs × (selects q l ≡ true)) × (mentions q l ≡ true))
            (matched_logs q logs) (λ l k. k.0.0) kept;
      matching =
          All-mono (λ l. (Among l logs × (selects q l ≡ true)) × (mentions q l ≡ true))
            (matched_logs q logs) (λ l k. query_holds q l (k.0.1, k.1)) kept;
      ascending = take-Ascending q.max_results (keep (mentions q) first) (
          keep-Ascending (mentions q) first
            (take-Ascending 500 (order_logs selected) (order_logs-Ascending selected)));
      complete = λ few short l m a.
          let all =
            take_all 500 (order_logs selected)
              (omega (arith, few, length-order_logs selected, length-keep (selects q) logs)) in
          subst (λ ls. Among l ls) (sym (take_short q.max_results (keep (mentions q) first) short))
            (Among-keep l (mentions q) first (mentioned_when q l a) (
              subst (λ ls. Among l ls) (sym all)
                (Among-order_logs l selected
                  (Among-keep l (selects q) logs (selected_when q l a) m))));
    }
