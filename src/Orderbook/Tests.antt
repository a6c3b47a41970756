-- ===== src/Orderbook/Tests.antt =====
-- Runs of the order book engine, and the theorems about it at concrete inputs.
use pred_sx.Base.{◌≡◌, refl, true, false, none, some, [], ◌∷◌, String, arith, All}
use pred_sx.Base.Dict.{Dict, lookup, insert, delete}
use pred_sx.Base.Decimal.{itoa}
use pred_sx.Number.Integers.{ℤ, integers}
use pred_sx.Json.{
  Json, Items, Members, str, arr, nil, cons, end, member, find, field, to_list, get_string, sprint,
}
use pred_sx.Orderbook.{
  Orderbook, better, apply_levels, apply_book, get_top_levels, run, Message, on_raw,
}
use pred_sx.Orderbook.Levels.{final_size, lookup-apply_levels}
use pred_sx.Orderbook.Sort.{IsStrictWeak, insertion_sort, insertion_sort-IsSort}
use pred_sx.Orderbook.Top.{IsTop, lower, higher, get_top_levels-IsTop}
use pred_sx.Orderbook.Engine.{AllBooks, IsSent, apply_book-snapshot, run-IsValid}

program : Unit {0}
unfolding apply_levels apply_book get_top_levels better final_size lookup insert delete find field
    to_list get_string sprint insertion_sort on_raw run itoa
program = tt

abbrev composite : Json ℤ → String
composite v = "[]"

abbrev level : String → String → Json ℤ
level price size = arr (cons (str price) (cons (str size) nil))

-- Price 51 is given, price 49 is taken away.
abbrev levels : Items ℤ
levels = cons (level "51" "7") (cons (level "49" "0") nil)

abbrev payload : Members ℤ
payload = member "type" (str "book") (
    member "market" (str "m1")
      (member "asset_id" (str "t1") (member "bids" (arr levels) (member "asks" (arr nil) end))))

abbrev old_bids : Dict String
old_bids = ("49", "3") ∷ ("50", "4") ∷ []

abbrev old_book : Orderbook
old_book = record { market_id = "m1"; token = "t1"; bids = old_bids; asks = [] }

lookup-apply_levels_example :
    lookup "49" (apply_levels integers composite (arr levels) old_bids) ≡ none
unfolding program
lookup-apply_levels_example =
    lookup-apply_levels integers composite "49" (arr levels) _ old_bids refl

apply_book-snapshot_example :
    (lookup "50" (apply_book integers composite payload old_book).bids ≡ none)
    × (lookup "50" (apply_book integers composite payload old_book).asks ≡ none)
unfolding program
apply_book-snapshot_example =
    apply_book-snapshot integers composite payload old_book (level "51" "7" ∷ level "49" "0" ∷ [])
      [] "50" refl refl refl

lower-IsStrictWeak : IsStrictWeak (lower integers)
lower-IsStrictWeak = record {
  irrefl = λ x. ground arith;
  trans = λ x y z. ground arith;
  weak = λ x y z. ground arith;
}

get_top_levels-IsTop_example :
    IsTop
      (higher integers)
      old_bids
      1
      (get_top_levels integers composite insertion_sort old_bids true 1)
    × IsTop
        (lower integers)
        old_bids
        1
        (get_top_levels integers composite insertion_sort old_bids false 1)
get_top_levels-IsTop_example =
    get_top_levels-IsTop integers composite insertion_sort insertion_sort-IsSort old_bids 1
      lower-IsStrictWeak

best_first :
    get_top_levels integers composite insertion_sort old_bids true 1
    ≡ record { price = "50"; size = "4" } ∷ []
unfolding program
best_first = refl

abbrev message : Message ℤ
message = record { payload = some payload; get = λ k. none; now = 5 }

run-IsValid_example :
    AllBooks (run integers composite insertion_sort (message ∷ []) []).0
    × All IsSent (run integers composite insertion_sort (message ∷ []) []).1
run-IsValid_example = run-IsValid integers composite insertion_sort (message ∷ [])
