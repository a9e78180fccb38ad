-- ===== src/Revision/Provider/Alternation.antt =====
-- How the two sources of what is sent take turns.
use app_flowy.Prelude.{ℕ, zero, suc, length, ◌≡◌, refl, none, some, List, [], ◌∷◌, ◌++◌, arith}
use app_flowy.OtStr.{Text}
use app_flowy.FlowyErrors.{done, failed}
use app_flowy.Revision.Provider.{
  ClientRevisionWsData, DataSource, WsDataProvider, Source, custom, revision, next, ack_data,
}

-- The turns for a list, with the one that gives it the turn.
abbrev pub turns_for : Source → List ClientRevisionWsData → ℕ
turns_for custom ds = length ds
turns_for revision ds = suc (length ds)

module _ {S : Type 0} where
  -- A provider with the data of the list in it.
  abbrev pub holding : Text → S → Source → List ClientRevisionWsData → WsDataProvider S
  holding object_id s src ds = record {
    object_id = object_id;
    rev_ws_data_list = ds;
    data_source = s;
    current_source = src;
  }

module _ {S : Type 0} (source : DataSource S) where
  -- One turn: `next`, and the acknowledgement of the data where there was some.
  unfoldable pub turn : WsDataProvider S → List ClientRevisionWsData × WsDataProvider S
  turn p = elim (next source p).0 [
    | failed e ↦ ([], (next source p).1)
    | done none ↦ ([], (next source p).1)
    | done (some d) ↦ (d ∷ [], (ack_data source d.rev_id (next source p).1).1)
  ]

  unfoldable pub turns : ℕ → WsDataProvider S → List ClientRevisionWsData × WsDataProvider S
  unfolding turn
  turns zero p = ([], p)
  turns (suc n) p = let (sent, p') = turn p in let (rest, p'') = turns n p' in (sent ++ rest, p'')

  turn-custom :
      (object_id : Text) (s : S) (d : ClientRevisionWsData) (ds : List ClientRevisionWsData)
      → turn (holding object_id s custom (d ∷ ds)) ≡ (d ∷ [], holding object_id s custom ds)
  unfolding turn next ack_data
  turn-custom object_id s d ds = ground arith

  turns-custom :
      (object_id : Text) (s : S) (ds : List ClientRevisionWsData)
      → turns (length ds) (holding object_id s custom ds) ≡ (ds, holding object_id s custom [])
  unfolding turns
  turns-custom object_id s [] = refl
  turns-custom object_id s (d ∷ ds) =
      rw (turn-custom object_id s d ds) (rw (turns-custom object_id s ds))

  turn-revision :
      (object_id : Text) (s : S) (d : ClientRevisionWsData) (ds : List ClientRevisionWsData)
      → turn (holding object_id s revision (d ∷ ds)) ≡ ([], holding object_id s custom (d ∷ ds))
  unfolding turn next
  turn-revision object_id s d ds = refl

  -- Whichever source has the turn: data that waits in the list is sent and acknowledged in its order,
  -- once each, with nothing of the other source between, in as many turns as there is data, and one
  -- more where the other source had the turn; the list is empty then.
  pub turns-all :
      (object_id : Text) (s : S) (src : Source) (d : ClientRevisionWsData)
      (ds : List ClientRevisionWsData)
      → turns (turns_for src (d ∷ ds)) (holding object_id s src (d ∷ ds))
        ≡ (d ∷ ds, holding object_id s custom [])
  unfolding turns
  turns-all object_id s custom d ds = turns-custom object_id s (d ∷ ds)
  turns-all object_id s revision d ds =
      rw (turn-revision object_id s d ds) (rw (turns-custom object_id s (d ∷ ds)))
