-- ===== src/Dashboards/Summary.antt =====
-- server/src/modules/economy/dashboards/dashboard.service.ts, `getSummary`: the order of the rows and
-- what they add up to.
use mmorpg_design_documents.Base.{
  ◌≡◌, refl, ap, ◌∙◌, inl, inr, Bool-cases, List, [], ◌∷◌, String, arith,
}
use mmorpg_design_documents.Base.Int.{ℤ, pos, ◌+ℤ◌, ◌≤ℤ◌, leb_ℤ, int_laws}
use mmorpg_design_documents.Base.Double.{Double}
use mmorpg_design_documents.Base.Dict.{Dict, sum_by}
use mmorpg_design_documents.Base.Lists.{All}
use mmorpg_design_documents.Market.{PriceHistoryEntry, MarketService}
use mmorpg_design_documents.Dashboards.{
  TradeSummaryItem, value_of, summary_rows, insert_row, sort_rows, get_summary,
}

abbrev pub Below {κ} : {W : Type κ} → TradeSummaryItem W → List (TradeSummaryItem W) → Type 0
Below r rows = All (λ x. x.total_value ≤ℤ r.total_value) rows

abbrev pub IsSorted {κ} : {W : Type κ} → List (TradeSummaryItem W) → Type 0
IsSorted [] = Unit
IsSorted (r ∷ rows) = Below r rows × IsSorted rows

-- The values of the rows together.
abbrev pub turnover {κ} : {W : Type κ} → List (TradeSummaryItem W) → ℤ
turnover [] = pos 0
turnover (r ∷ rows) = r.total_value +ℤ turnover rows

sum_swap : (a b c : ℤ) → a +ℤ (b +ℤ c) ≡ b +ℤ (a +ℤ c)
sum_swap a b c = omega int_laws

zero_sum : (a : ℤ) → a ≡ pos 0 +ℤ a
zero_sum a = omega int_laws

module _ {κ} (W : Type κ) ⦃doubles : Double W⦄ where
  Below-trans :
      (r x : TradeSummaryItem W) (rows : List (TradeSummaryItem W))
      → x.total_value ≤ℤ r.total_value
      → Below x rows
      → Below r rows
  Below-trans r x [] h b = tt
  Below-trans r x (y ∷ rows) h b = (omega (arith, h, b.0), Below-trans r x rows h b.1)

  insert_row-Below :
      (q r : TradeSummaryItem W) (rows : List (TradeSummaryItem W))
      → r.total_value ≤ℤ q.total_value
      → Below q rows
      → Below q (insert_row W r rows)
  unfolding insert_row
  insert_row-Below q r [] h b = (h, tt)
  insert_row-Below q r (x ∷ rows) h b = elim (Bool-cases (leb_ℤ x.total_value r.total_value)) [
    | inl e ↦ rw e (h, b)
    | inr e ↦ rw e (b.0, insert_row-Below q r rows h b.1)
  ]

  insert_row-IsSorted :
      (r : TradeSummaryItem W) (rows : List (TradeSummaryItem W))
      → IsSorted rows
      → IsSorted (insert_row W r rows)
  unfolding insert_row
  insert_row-IsSorted r [] s = (tt, tt)
  insert_row-IsSorted r (x ∷ rows) s = elim (Bool-cases (leb_ℤ x.total_value r.total_value)) [
    | inl e ↦ rw e ((ground arith, Below-trans r x rows (ground arith) s.0), s)
    | inr e ↦ rw e (insert_row-Below x r rows (ground arith) s.0, insert_row-IsSorted r rows s.1)
  ]

  insert_row-turnover :
      (r : TradeSummaryItem W) (rows : List (TradeSummaryItem W))
      → turnover (insert_row W r rows) ≡ r.total_value +ℤ turnover rows
  unfolding insert_row
  insert_row-turnover r [] = refl
  insert_row-turnover r (x ∷ rows) = elim (Bool-cases (leb_ℤ x.total_value r.total_value)) [
    | inl e ↦ rw e refl
    | inr e ↦ rw e (
        ap (λ t. x.total_value +ℤ t) (insert_row-turnover r rows)
        ∙ sum_swap x.total_value r.total_value (turnover rows))
  ]

  sort_rows_lem :
      (rows : List (TradeSummaryItem W))
      → IsSorted (sort_rows W rows) × (turnover (sort_rows W rows) ≡ turnover rows)
  unfolding sort_rows
  sort_rows_lem [] = (tt, refl)
  sort_rows_lem (r ∷ rows) =
      let rest = sort_rows_lem rows in
      (
        insert_row-IsSorted r (sort_rows W rows) rest.0,
        insert_row-turnover r (sort_rows W rows) ∙ ap (λ t. r.total_value +ℤ t) rest.1,
      )

  summary_rows-turnover :
      (d : Dict String (List PriceHistoryEntry)) → turnover (summary_rows W d) ≡ sum_by value_of d
  unfolding summary_rows
  summary_rows-turnover [] = refl
  summary_rows-turnover ((k, []) ∷ d) = summary_rows-turnover d ∙ zero_sum (sum_by value_of d)
  summary_rows-turnover ((k, e ∷ es) ∷ d) =
      ap (λ t. value_of (e ∷ es) +ℤ t) (summary_rows-turnover d)

  -- The rows stand by their value, the greatest first, and their values add up to what was paid in
  -- all the trades that the market's histories hold.
  pub get_summary-IsSorted :
      (m : MarketService)
      → IsSorted (get_summary W m) × (turnover (get_summary W m) ≡ sum_by value_of m.price_history)
  unfolding get_summary
  get_summary-IsSorted m =
      let sorted = sort_rows_lem (summary_rows W m.price_history) in
      (sorted.0, sorted.1 ∙ summary_rows-turnover m.price_history)
