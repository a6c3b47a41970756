-- ===== src/Rotator/Pool.antt =====
-- The endpoints of the indexer: the part of `main` of predsx/services/ingestion/main.go that reads
-- POLYGON_RPC_URLS, with `defaultRPCPool`, and the start of `startIndexerComponent`.
pub mod Configured
use pred_sx.Base.{Option, none, some, List, [], ◌∷◌, String, if◌then◌else◌, is_empty}
use pred_sx.Base.Dict.{Dict}
use pred_sx.Base.Split.{split, trim_space}
use pred_sx.Config.{get_env}
use pred_sx.Rotator.{RpcRotator, new_rpc_rotator}

pub default_rpc_pool : List String
default_rpc_pool =
    "https://polygon-bor-rpc.publicnode.com" ∷ "https://polygon.drpc.org"
    ∷ "https://polygon.meowrpc.com" ∷ []

-- The loop over the parts of the list.
pub custom_urls : List String → List String
custom_urls [] = []
custom_urls (part ∷ parts) =
    let rest = custom_urls parts in
    if is_empty (trim_space part) then rest else trim_space part ∷ rest

pub urls_for : String → List String
unfolding custom_urls default_rpc_pool
urls_for custom = if is_empty custom then default_rpc_pool else custom_urls (split 44 custom)

pub rpc_urls : Dict String → List String
unfolding urls_for
rpc_urls env = urls_for (get_env env "POLYGON_RPC_URLS" "")

pub start_rotator : Dict String → RpcRotator
unfolding rpc_urls
start_rotator env = new_rpc_rotator (rpc_urls env)
