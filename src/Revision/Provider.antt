-- ===== src/Revision/Provider.antt =====
-- `WSDataProvider` of frontend/rust-lib/flowy-revision/src/ws_manager.rs, with the data of
-- shared-lib/ws-model/src/ws_revision.rs: what is sent next to the server, from a list of its own or
-- from the revision manager. The source of the revisions, a trait, is a parameter with its state.
pub mod Alternation
use app_flowy.Prelude.{ℕ, Option, none, some, List, [], ◌∷◌, ◌++◌, ◌==◌, is_nil, if◌then◌else◌}
use app_flowy.OtStr.{Text}
use app_flowy.FlowyErrors.{FlowyResult, done, failed}
use app_flowy.Revision.{Revision}

pub data ClientRevisionWsDataType : Type 0 where
  client_push_rev client_ping : ClientRevisionWsDataType

pub record ClientRevisionWsData : Type 0 where
  pub object_id : Text
  pub ty : ClientRevisionWsDataType
  pub revisions : List Revision
  pub rev_id : ℕ

abbrev pub first_rev_id : List Revision → ℕ
first_rev_id [] = 0
first_rev_id (r ∷ rs) = r.rev_id

unfoldable pub from_revisions : Text → List Revision → ClientRevisionWsData
from_revisions object_id revisions = record {
  object_id = object_id;
  ty = client_push_rev;
  revisions = revisions;
  rev_id = first_rev_id revisions;
}

unfoldable pub ping : Text → ℕ → ClientRevisionWsData
ping object_id rev_id = record {
  object_id = object_id;
  ty = client_ping;
  revisions = [];
  rev_id = rev_id;
}

pub data Source : Type 0 where
  custom revision : Source

pub record DataSource (S : Type 0) : Type 0 where
  pub next_revision : S → FlowyResult (Option Revision)
  pub ack_revision : ℕ → S → FlowyResult S
  pub current_rev_id : S → ℕ

pub record WsDataProvider (S : Type 0) : Type 0 where
  pub object_id : Text
  pub rev_ws_data_list : List ClientRevisionWsData
  pub data_source : S
  pub current_source : Source

-- The list without its front, where that has the id.
unfoldable pub pop_matching : ℕ → List ClientRevisionWsData → List ClientRevisionWsData
pop_matching rev_id [] = []
pop_matching rev_id (d ∷ ds) = if d.rev_id == rev_id then ds else d ∷ ds

module _ {S : Type 0} where
  unfoldable pub new : Text → S → WsDataProvider S
  new object_id s = record {
    object_id = object_id;
    rev_ws_data_list = [];
    data_source = s;
    current_source = custom;
  }

  unfoldable pub push_data : ClientRevisionWsData → WsDataProvider S → WsDataProvider S
  push_data d p = record p { rev_ws_data_list = p.rev_ws_data_list ++ d ∷ [] }

  module _ (source : DataSource S) where
    -- The source is asked, where there is nothing in the list.
    unfoldable pub next_of_source : WsDataProvider S → FlowyResult (Option ClientRevisionWsData)
    unfolding from_revisions ping
    next_of_source p = elim (source.next_revision p.data_source) [
      | failed e ↦ failed e
      | done none ↦ done (some (ping p.object_id (source.current_rev_id p.data_source)))
      | done (some r) ↦ done (some (from_revisions p.object_id (r ∷ [])))
    ]

    unfoldable pub next :
        WsDataProvider S → FlowyResult (Option ClientRevisionWsData) × WsDataProvider S
    unfolding next_of_source
    next p = elim p.current_source [
      | custom ↦ elim p.rev_ws_data_list [
        | [] ↦ (done none, record p { current_source = revision })
        | d ∷ ds ↦ (done (some d), p)
      ]
      | revision ↦
          if is_nil p.rev_ws_data_list
          then (next_of_source p, p)
          else (done none, record p { current_source = custom })
    ]

    unfoldable pub ack_data : ℕ → WsDataProvider S → FlowyResult (Unit {0}) × WsDataProvider S
    unfolding pop_matching
    ack_data rev_id p = elim p.current_source [
      | custom ↦ (done tt, record p { rev_ws_data_list = pop_matching rev_id p.rev_ws_data_list })
      | revision ↦ elim (source.ack_revision rev_id p.data_source) [
        | failed e ↦ (failed e, p)
        | done s ↦ (done tt, record p { data_source = s })
      ]
    ]
