-- ===== src/Domain/Descriptors.antt =====
-- Entities, artifacts, surfaces and assets: crates/entity-core/src/lib.rs,
-- crates/artifact-core/src/lib.rs, crates/surface-core/src/lib.rs, crates/asset-core/src/lib.rs.
-- An identifier is the text in its newtype. A time is the number of ticks since an epoch that lies
-- before every event. A JSON value, which this code carries and never reads, is its text.
use connor_agent_core.Common.{ℕ, String, Option, List}

abbrev pub Time : Type 0
Time = ℕ

abbrev pub Json : Type 0
Json = String

pub data EntityKind : Type 0 where
  browser mail knowledge reminder person device plugin external_service system : EntityKind

pub record EntityCapability : Type 0 where
  pub name : String
  pub description : Option String

pub record EntityDescriptor : Type 0 where
  pub id : String
  pub kind : EntityKind
  pub display_name : String
  pub capabilities : List EntityCapability
  pub default_policy_ref : Option String

pub data LinkReason : Type 0 where
  user_requested assistant_suggested system_default context_detected : LinkReason

pub data ArtifactKind : Type 0 where
  web_page extracted_text email document image pdf tool_result knowledge_draft : ArtifactKind
  action_result : ArtifactKind

pub record ArtifactDescriptor : Type 0 where
  pub id : String
  pub kind : ArtifactKind
  pub title : Option String
  pub source_uri : Option String
  pub mime_type : Option String
  pub metadata : Json
  pub created_at : Time

pub data SurfaceKind : Type 0 where
  web_surface mail_surface document_surface image_surface knowledge_entry_surface : SurfaceKind
  approval_surface audit_surface : SurfaceKind

pub data SurfaceLifecycleStatus : Type 0 where
  attached updated closed : SurfaceLifecycleStatus

pub data SurfaceRendererHint : Type 0 where
  markdown html plain_text image pdf table form timeline : SurfaceRendererHint
  custom : String → SurfaceRendererHint

pub record SurfaceDescriptor : Type 0 where
  pub id : String
  pub kind : SurfaceKind
  pub title : Option String
  pub renderer_hint : SurfaceRendererHint
  pub artifact_id : Option String
  pub metadata : Json
  pub created_at : Time

pub record SurfaceState : Type 0 where
  pub descriptor : SurfaceDescriptor
  pub status : SurfaceLifecycleStatus
  pub updated_at : Time

-- `SurfaceState::attached`
abbrev pub attached_state : SurfaceDescriptor → Time → SurfaceState
attached_state descriptor created_at = record {
  descriptor = descriptor;
  status = attached;
  updated_at = created_at;
}

pub data AssetKind : Type 0 where
  image document spreadsheet slide pdf video_reference audio unknown : AssetKind

pub data AssetProcessingStatus : Type 0 where
  observed captured processing processed failed archived : AssetProcessingStatus

pub data AssetRelevance : Type 0 where
  critical high medium low background : AssetRelevance

pub record AssetSource : Type 0 where
  pub uri : Option String
  pub discovered_at : Time
  pub context : Json

pub record AssetMetadata : Type 0 where
  pub id : String
  pub kind : AssetKind
  pub title : Option String
  pub mime_type : Option String
  pub file_size_bytes : Option ℕ
  pub source : AssetSource
  pub relevance : AssetRelevance
  pub tags : List String
  pub created_at : Time
