-- ===== src/Soldgraph/Workflow/Stopping.antt =====
-- The stop switch of packages/market-price/src/soldgraph-workflow.ts.
use hanamaru_shientool_prod.Prelude.{
  inl, inr, ◌≡◌, refl, ◌∙◌, ap, Bool, true, false, Option, none, some, Result, ok, err, arith,
  String, Bool-cases,
}
use hanamaru_shientool_prod.Prelude.Text.{str_eq}
use hanamaru_shientool_prod.Json.{Json}
use hanamaru_shientool_prod.Contracts.{PageRequest, ParsedPage, Checkpoint}
use hanamaru_shientool_prod.Soldgraph.Request.{Host, ContractError, operation_key}
use hanamaru_shientool_prod.Soldgraph.Workflow.{
  Problem, Mode, Surroundings, World, ◌>>=◌, is_terminal, load, permit, wait, checked, identify,
  advance, forbidden, mode_of, due,
}

-- Nothing was called and nothing was written.
abbrev Untouched : World → Result Problem Checkpoint × World → Type 0
Untouched w (r, w') = (w'.log ≡ w.log) × (w'.row ≡ w.row)

module _ (h : Host) (parse : Json → PageRequest → Result ContractError ParsedPage)
    (s : Surroundings) (m : Mode) (stop : mode_of s.permission ≡ some m) where
  wait-Untouched :
      (b : Option Bool) (c : Checkpoint) (key : String) (w : World)
      → forbidden m c.request_id ≡ true
      → Untouched w (wait h parse s c key b w)
  unfolding wait permit
  wait-Untouched none c key w f = (refl, refl)
  wait-Untouched (some false) c key w f = (refl, refl)
  wait-Untouched (some true) c key w f = rw (stop, permit) (rw f (refl, refl))

  checked-Untouched :
      (r : Result ContractError String) (c : Checkpoint) (key : String) (w : World)
      → forbidden m c.request_id ≡ true
      → Untouched w (checked h parse s c key r w)
  unfolding checked
  checked-Untouched (err x) c key w f = (refl, refl)
  checked-Untouched (ok own) c key w f = elim (Bool-cases (str_eq own key)) [
    | inr other ↦ rw other (refl, refl)
    | inl same ↦ rw same (elim (Bool-cases (is_terminal c.state)) [
      | inl over ↦ rw over (refl, refl)
      | inr open_ ↦ rw open_ (wait-Untouched (due c.retry_not_before s.now_before) c key w f)
    ])
  ]

  identify-Untouched :
      (c : Checkpoint) (key : String) (w : World)
      → forbidden m c.request_id ≡ true
      → Untouched w (identify h parse s c key w)
  unfolding identify
  identify-Untouched c key w f = elim (Bool-cases (str_eq c.operation_key key)) [
    | inr other ↦ rw other (refl, refl)
    | inl same ↦
        rw same (checked-Untouched (operation_key h c.search_id c.request c.attempt) c key w f)
  ]

  -- What `load` gives.
  abbrev Read : World → Result Problem Checkpoint × World → Type 0
  Read w (ok c, w') = (c ≡ w.row) × (w'.row ≡ w.row) × (w'.log ≡ w.log)
  Read w (err p, w') = (w'.row ≡ w.row) × (w'.log ≡ w.log)

  load-Read : (key : String) (w : World) → Read w (load s key w)
  unfolding load
  load-Read key w = ground arith

  loaded-Untouched :
      (w : World) (key : String) (x : Result Problem Checkpoint × World)
      → Read w x
      → forbidden m w.row.request_id ≡ true
      → Untouched w (((λ _. x) >>= λ c. identify h parse s c key) w)
  loaded-Untouched w key (err p, w') (r, l) f = (l, r)
  loaded-Untouched w key (ok c, w') (same, r, l) f =
      let (l', r') = identify-Untouched c key w' (ap (λ x. forbidden m x.request_id) same ∙ f) in
      (l' ∙ l, r' ∙ r)

  -- In an emergency stop, or when only reconciling a page that has no request ID, a step calls no
  -- provider and writes nothing, on any path.
  pub advance-stopped :
      (key : String) (w : World)
      → forbidden m w.row.request_id ≡ true
      → ((advance h parse s key w).1.log ≡ w.log) × ((advance h parse s key w).1.row ≡ w.row)
  unfolding advance
  advance-stopped key w f = loaded-Untouched w key (load s key w) (load-Read key w) f
