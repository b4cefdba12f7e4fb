-- ===== src/Repo/Identifiers.antt =====
-- internal/repo/identifier.go: the identifiers of products, releases, components and distributions.
use opentea.Prelude.{
  String, Bool, not, ◌&&◌, ◌||◌, List, [], ◌∷◌, ◌++◌, ◌==◌, any, if◌then◌else◌, Result, ok, err,
  ◌>>=◌,
}
use opentea.Repo.{
  Error, constraint_violation, compliance_document_wrong_owner, invalid_compliance_document_type,
}
use opentea.Repo.Owners.{Owner, Owned, rows_of}

-- `tea.Identifier`, and the columns of `identifier`.
pub record Identifier : Type 0 where
  pub id_type : String
  pub id_value : String

abbrev pub compliance_document : String
compliance_document = "COMPLIANCE_DOCUMENT"

abbrev pub valid_compliance_document_types : List String
valid_compliance_document_types =
    "SOC_2_TYPE_I" ∷ "SOC_2_TYPE_II" ∷ "SOC_3" ∷ "ISO_27001" ∷ "ISO_27017" ∷ "ISO_27018"
    ∷ "ISO_27701" ∷ "ISO_42001" ∷ "PCI_DSS" ∷ "HIPAA" ∷ "FEDRAMP" ∷ "GDPR" ∷ "CSA_STAR"
    ∷ "NIST_800_53" ∷ "NIST_800_171" ∷ "CMMC" ∷ "HITRUST" ∷ "TISAX" ∷ "CYBER_ESSENTIALS"
    ∷ "CYBER_ESSENTIALS_PLUS" ∷ "EU_DECLARATION_OF_CONFORMITY" ∷ []

-- `slices.Contains`
abbrev pub one_of : List String → String → Bool
one_of xs a = any (λ x. x == a) xs

-- `validateComplianceDocumentIdentifier`
unfoldable pub validate_compliance_document_identifier : Identifier → Bool → Result Error (Unit {0})
validate_compliance_document_identifier id owner_type_allowed =
    if not (id.id_type == compliance_document)
    then ok tt
    else if not owner_type_allowed
    then err compliance_document_wrong_owner
    else if not (one_of valid_compliance_document_types id.id_value)
    then err invalid_compliance_document_type
    else ok tt

-- The CHECK on `id_type`.
abbrev pub identifier_types : List String
identifier_types = "CPE" ∷ "TEI" ∷ "PURL" ∷ compliance_document ∷ []

-- The CHECK on `owner_type`.
abbrev pub identifier_owner_types : List String
identifier_owner_types =
    "PRODUCT" ∷ "PRODUCT_RELEASE" ∷ "COMPONENT" ∷ "COMPONENT_RELEASE" ∷ "DISTRIBUTION" ∷ []

abbrev pub owner_type_allowed : Owner → Bool
owner_type_allowed o = (o.type == "COMPONENT") || (o.type == "COMPONENT_RELEASE")

-- One `INSERT INTO identifier`.
unfoldable pub insert_identifier :
    Owner → Identifier → List (Owned Identifier) → Result Error (List (Owned Identifier))
insert_identifier owner id rows =
    if one_of identifier_owner_types owner.type && one_of identifier_types id.id_type
    then ok (rows ++ record { owner = owner; row = id } ∷ [])
    else err constraint_violation

unfoldable pub insert_identifiers :
    Owner → List Identifier → List (Owned Identifier) → Result Error (List (Owned Identifier))
unfolding validate_compliance_document_identifier insert_identifier
insert_identifiers owner [] rows = ok rows
insert_identifiers owner (id ∷ ids) rows = do
  valid ← validate_compliance_document_identifier id (owner_type_allowed owner)
  more ← insert_identifier owner id rows
  insert_identifiers owner ids more

-- `ORDER BY id`, the order of insertion.
abbrev pub list_identifiers : Owner → List (Owned Identifier) → List Identifier
list_identifiers = rows_of
