-- ===== src/CoreClient/Queries.antt =====
-- internal/infrastructure/coreclient/client.go: the query of ListActivities.
use bff_api_go_collection_ac.Base.{String, List, [], ◌∷◌, ◌++◌, ◌==◌, if◌then◌else◌}
use bff_api_go_collection_ac.Base.Ints.{ℤ, pos}
use bff_api_go_collection_ac.Base.Texts.{join}
use bff_api_go_collection_ac.Base.Texts.Decimal.{itoa_ℤ}

-- The filters of ListActivities. Who asks (trace, tenant, user) goes into headers.
pub record ListQuery : Type 0 where
  pub loan_id : String
  pub loan_ids : List String
  pub client_id : String
  pub agent_id : String
  pub agent_name : String
  pub activity_type : String
  pub limit : ℤ
  pub offset : ℤ

abbrev pub no_filters : ListQuery
no_filters = record {
  loan_id = "";
  loan_ids = [];
  client_id = "";
  agent_id = "";
  agent_name = "";
  activity_type = "";
  limit = pos 0;
  offset = pos 0;
}

abbrev given : String → String → List (String × String)
given name value = if value == "" then [] else (name, value) ∷ []

abbrev given_list : String → List String → List (String × String)
given_list name [] = []
given_list name (v ∷ vs) = (name, join "," (v ∷ vs)) ∷ []

-- The parameters of the request; a filter that is empty is left out.
unfoldable pub list_params : ListQuery → List (String × String)
list_params q =
    ("limit", itoa_ℤ q.limit)
    ∷ ("offset", itoa_ℤ q.offset)
    ∷ (given "loan_id" q.loan_id
        ++ (given_list "loan_ids" q.loan_ids
            ++ (given "client_id" q.client_id
                ++ (given "agent_id" q.agent_id
                    ++ (given "agent_name" q.agent_name
                        ++ given "activity_type" q.activity_type)))))
