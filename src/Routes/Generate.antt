-- ===== src/Routes/Generate.antt =====
-- `generate_from_routes` of src/routes.rs. The JSON details and the descriptions are the parameters
-- `table_details`, `details` and `describe`.
pub mod Layout
pub mod Loading
pub mod Frames
pub mod Refusals
pub mod Decoding
pub mod Dumped
pub mod Total
use Prim.Native.String.{String}
use mrtgen.Base.{
  ℕ, ◌+◌, ◌++◌, [], ◌∷◌, List, Option, none, some, Bytes, length, as_u32, is_some, if◌then◌else◌,
}
use mrtgen.Text.{codes}
use mrtgen.Writer.{MrtRecord, encode_into, encoded_len}
use mrtgen.Records.TableDump.{peer_index_table}
use mrtgen.Manifest.{CorpusProfile, routes, Expect, valid, RecordEntry, Counts, Manifest}
use mrtgen.Generator.{Corpus, count_one, expect_tag}
use mrtgen.Routes.Spec.{RouteFormat, table_dump_v2, bgp4mp, RouteSpec, ParsedRoute}
use mrtgen.Routes.Parse.{parse_route}
use mrtgen.Routes.Rib.{route_peers, rib_route}
use mrtgen.Routes.Update.{update_route}
use mrtgen.Outcome.{Error, flowspec_in_table_dump, in_route, Outcome, ok, err, ◌>>=◌, ◌>>◌}

-- The three variables that the `push` closure changes.
pub record Output (D : Type 0) : Type 0 where
  pub bytes : Bytes
  pub entries : List (RecordEntry D)
  pub counts : Counts

-- `routes.iter().enumerate().map(|(i, r)| parse_route(i, r)).collect()`, from `i` on
unfoldable pub parse_routes : ℕ → List RouteSpec → Outcome (List ParsedRoute)
parse_routes i [] = ok []
parse_routes i (r ∷ rs) = do p ← parse_route i r; ps ← parse_routes (i + 1) rs; ok (p ∷ ps)

-- The first flow specification, from `i` on, is refused in a table dump.
unfoldable pub refuse_flowspec : ℕ → List ParsedRoute → Outcome (Unit {0})
refuse_flowspec i [] = ok tt
refuse_flowspec i (p ∷ ps) =
    let later = refuse_flowspec (i + 1) ps in
    if is_some p.flow_nlri then err (in_route i flowspec_in_table_dump) else later

module _ {D : Type 0} where
  unfoldable pub push_record : MrtRecord → String → Expect → String → D → Output D → Output D
  push_record rec kind expect description details out = record {
    bytes = encode_into rec out.bytes;
    counts = count_one expect out.counts;
    entries =
        out.entries
        ++ (record {
          index = length out.entries;
          offset = length out.bytes;
          size = encoded_len rec;
          mrt_type = rec.mrt_type;
          subtype = rec.subtype;
          timestamp = rec.timestamp;
          kind = kind;
          expect = expect;
          description = description;
          tags = expect_tag expect ∷ "routes" ∷ [];
          details = details;
        }
            ∷ []);
  }

  abbrev pub no_output : Output D
  no_output = record {
    bytes = [];
    entries = [];
    counts = record { valid = 0; skip = 0; abort = 0 };
  }

  -- The manifest and the bytes, at the end of the function.
  abbrev pub corpus_of : String → Output D → Corpus D
  corpus_of version out = record {
    bytes = out.bytes;
    manifest = record {
      generator = "mrtgen";
      generator_version = version;
      profile = routes;
      file_size = length out.bytes;
      counts = out.counts;
      records = out.entries;
    };
  }

  -- `base_timestamp + entries.len() as u32`, which wraps in a release build
  abbrev pub stamp_of : ℕ → Output D → ℕ
  stamp_of base_timestamp out = as_u32 (base_timestamp + as_u32 (length out.entries))

module _ {D : Type 0} (base_timestamp : ℕ)
    (describe : RouteFormat → RouteSpec → ParsedRoute → String)
    (details : RouteSpec → ParsedRoute → D) where
  -- The body of either loop.
  unfoldable pub route_record :
      RouteFormat → ℕ → ℕ → RouteSpec → ParsedRoute → Outcome (MrtRecord × String)
  route_record table_dump_v2 ts i spec p = rib_route ts i spec p
  route_record bgp4mp ts i spec p = update_route ts i spec p

  -- `for (i, (spec, p)) in routes.iter().zip(&parsed).enumerate()`, from `i` on
  unfoldable pub emit_routes :
      RouteFormat → ℕ → List RouteSpec → List ParsedRoute → Output D → Outcome (Output D)
  emit_routes format i (spec ∷ specs) (p ∷ ps) out = do
    (rec, kind) ← route_record format (stamp_of base_timestamp out) i spec p
    emit_routes format (i + 1) specs ps
        (push_record rec kind p.expect (describe format spec p) (details spec p) out)
  emit_routes format i [] _ out = ok out
  emit_routes format i (spec ∷ specs) [] out = ok out

  -- What is there before the first route: the peer table, or nothing.
  unfoldable pub start : RouteFormat → D → List ParsedRoute → Outcome (Output D)
  start bgp4mp table_details parsed = ok no_output
  start table_dump_v2 table_details parsed = do
    refuse_flowspec 0 parsed
    ok (
        push_record
          (peer_index_table base_timestamp (192 ∷ 0 ∷ 2 ∷ 100 ∷ []) (codes "mrtgen-routes")
            route_peers)
          "route_peer_index_table" valid "TABLE_DUMP_V2 PEER_INDEX_TABLE for the user route list"
          table_details no_output)

  -- `version` is the package version that the build puts in.
  unfoldable pub generate_from_routes :
      String → D → List RouteSpec → RouteFormat → Outcome (Corpus D)
  generate_from_routes version table_details specs format = do
    parsed ← parse_routes 0 specs
    begun ← start format table_details parsed
    out ← emit_routes format 0 specs parsed begun
    ok (corpus_of version out)
