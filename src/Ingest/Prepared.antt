-- ===== src/Ingest/Prepared.antt =====
-- What holds of every request that `prepareIngestText` lets through.
use Prim.Native.String.{◌++◌, count}
use project_brain.Base.{String, false, ◌==◌, ◌≡◌, ◌≢◌, refl, arith, ok}
use project_brain.Base.Text.{trim_space, map_runes}
use project_brain.Domain.{IngestTextRequest}
use project_brain.Store.State.{Env, normalize}
use project_brain.Ingest.Prepare.{
  PreparedIngestText, compute_identity_key, or_default, prepare_ingest_text,
}

module _ (env : Env) where
  -- The workspace and the key of a request that is accepted.
  pub prepare_ingest_text-keyed :
      (req : IngestTextRequest) (p : PreparedIngestText)
      → prepare_ingest_text env req ≡ ok p
      → (p.workspace_id ≡ normalize env req.workspace_id)
        × (p.identity_key
            ≡ compute_identity_key env p.workspace_id p.source_type req.source p.content_checksum)
        × (p.content_checksum ≡ env.sha256_hex p.content)
  unfolding prepare_ingest_text
  prepare_ingest_text-keyed req p h = ground arith

  -- With an idempotency key, the identity key is that key alone.
  pub compute_identity_key-idempotent :
      (ws ty : String) (req : IngestTextRequest) (checksum : String)
      → (trim_space req.source.idempotency_key == "") ≡ false
      → compute_identity_key env ws ty req.source checksum
        ≡ "idem:" ++ trim_space req.source.idempotency_key
  unfolding compute_identity_key
  compute_identity_key-idempotent ws ty req checksum h = rw h refl

  -- Where the content belongs: the workspace, the kind of the source, and its locator.
  abbrev pub scope_of : IngestTextRequest → PreparedIngestText → String
  scope_of req p =
      normalize env p.workspace_id
      ++ "\0"
      ++ normalize env p.source_type
      ++ "\0"
      ++ map_runes env.lower
          (or_default (trim_space req.source.uri) (trim_space req.source.external_id))

  -- Two texts that SHA-256 does not tell apart.
  abbrev pub Collide : Type 0
  Collide = (s : String) × (s' : String) × (s ≢ s') × (env.sha256_hex s ≡ env.sha256_hex s')

  -- The checksum of every text has the same length.
  abbrev pub EvenSums : Type 0
  EvenSums = (s s' : String) → count (env.sha256_hex s) ≡ count (env.sha256_hex s')
