-- ===== src/Documents/Upload.antt =====
-- `DocumentService`: what is uploaded, the settings of the channel, and the tests of an upload.
use ai_dial_generic_rag_back.Prelude.{
  ℕ, Bool, ◌||◌, not, Option, none, some, String, str_eq, List, [], ◌∷◌, ◌==◌, if◌then◌else◌, codes,
}
use ai_dial_generic_rag_back.Prelude.Equality.{nat_key, list_key, contains}
use ai_dial_generic_rag_back.Prelude.Results.{
  Result, ok, ◌>>◌, raise_if, raise_unless, invalid_request, validation_failed, assertion_failed,
}
use ai_dial_generic_rag_back.Types.Json.{Fields, end, field}
use ai_dial_generic_rag_back.References.{Text}

-- `UploadFile`, in which a missing name, type or size is "" or 0.
pub record Upload : Type 0 where
  pub filename : String
  pub content_type : String
  pub size : ℕ
  pub content : List ℕ

pub record FileMetadata : Type 0 where
  pub url : String
  pub etag : String
  pub content_type : String
  pub content_length : ℕ

-- The texts of Python that are true.
abbrev pub is_given : String → Bool
is_given s = not (str_eq s "")

-- `content_type.split(";", maxsplit=1)[0]`
before_semicolon : Text → Text
before_semicolon [] = []
before_semicolon (c ∷ cs) = let rest = before_semicolon cs in if c == b';' then [] else c ∷ rest

lstrip : (ℕ → Bool) → Text → Text
lstrip is_space [] = []
lstrip is_space (c ∷ cs) = let rest = lstrip is_space cs in if is_space c then rest else c ∷ cs

-- The rest of a text without spaces at its end.
join_unless_blank : (ℕ → Bool) → ℕ → Text → Text
join_unless_blank is_space c [] = if is_space c then [] else c ∷ []
join_unless_blank is_space c (d ∷ ds) = c ∷ d ∷ ds

pub rstrip : (ℕ → Bool) → Text → Text
unfolding join_unless_blank
rstrip is_space [] = []
rstrip is_space (c ∷ cs) = join_unless_blank is_space c (rstrip is_space cs)

-- The characters of `*/*`.
abbrev pub any_type : Text
any_type = codes "*/*"

-- What the service is given: the settings of the channel, the paths of the file storage, and the
-- metadata with which it answers an upload to a path.
pub record Setup : Type 0 where
  pub is_space : ℕ → Bool
  pub lower : Text → Text
  pub allowed_document_types : List Text
  pub conforms : Fields → Bool
  pub upload_filepath : String → String → String
  pub display_name : String → String → String
  pub files_url : String → String
  pub relative_path : String → String
  pub stored : String → String → List ℕ → FileMetadata

module _ (setup : Setup) where
  unfoldable pub media_type : String → Text
  unfolding before_semicolon lstrip rstrip
  media_type content_type =
      setup.lower
        (rstrip setup.is_space (lstrip setup.is_space (before_semicolon (codes content_type))))

  unfoldable pub validate_content_type : String → Result (Unit {0})
  unfolding media_type
  validate_content_type content_type =
      let supported = setup.allowed_document_types in
      raise_unless (contains supported (media_type content_type) || contains supported any_type)
        invalid_request

  unfoldable pub validate_attachment : Upload → Result (Unit {0})
  unfolding validate_content_type
  validate_attachment a =
      raise_if (a.size == 0 || str_eq a.content_type "" || str_eq a.filename "") invalid_request
      >> validate_content_type a.content_type

  unfoldable pub validate_metadata : Option Fields → Result (Unit {0})
  validate_metadata none = ok tt
  validate_metadata (some end) = ok tt
  validate_metadata (some (field name value rest)) =
      raise_unless (setup.conforms (field name value rest)) validation_failed

  -- The checks of `create_document` before it asks the file storage.
  unfoldable pub validate_upload : Upload → Option Fields → Result (Unit {0})
  unfolding validate_attachment validate_metadata
  validate_upload a metadata =
      raise_unless (is_given a.filename) assertion_failed
      >> raise_unless (is_given a.content_type) assertion_failed
      >> validate_attachment a
      >> validate_metadata metadata
