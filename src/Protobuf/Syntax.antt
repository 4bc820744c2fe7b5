-- ===== src/Protobuf/Syntax.antt =====
-- What redpanda/models/schema/protobuf_canonicalize.go sees of a parsed protobuf file (the types of
-- github.com/emicklei/proto). The pointers of the parser are not nil; a kind of element that the
-- source does not name is `unsupported`.
use terraform_provider_redpa.Base.{Bool, List, Text, ℤ}

-- A literal has its source text; one with an ordered map or an array has that as well.
mutual
  pub data Literal : Type 0 where
    literal : (source : Text) → Entries → Literals → Literal

  pub data Entries : Type 0 where
    no_entries : Entries
    entry : Text → Literal → Entries → Entries

  pub data Literals : Type 0 where
    no_literals : Literals
    item : Literal → Literals → Literals

pub record OptionDecl : Type 0 where
  pub name : Text
  pub constant : Literal

-- The three flags of a normal field.
pub record Label : Type 0 where
  pub repeated : Bool
  pub optional : Bool
  pub required : Bool

pub record Field : Type 0 where
  pub type_name : Text
  pub name : Text
  pub sequence : ℤ
  pub options : List OptionDecl

pub record Range : Type 0 where
  pub from : ℤ
  pub to : ℤ
  pub is_max : Bool

mutual
  pub data Element : Type 0 where
    comment : Text → Element
    syntax_decl : Text → Element
    package_decl : Text → Element
    import_decl : (kind filename : Text) → Element
    option_decl : OptionDecl → Element
    message : (is_extend : Bool) → Text → Elements → Element
    enum_decl : Text → Elements → Element
    enum_field : Text → ℤ → Elements → Element
    normal_field : Label → Field → Element
    map_field : (key_type : Text) → Field → Element
    oneof_decl : Text → Elements → Element
    oneof_field : Field → Element
    reserved : List Range → (field_names : List Text) → Element
    unsupported : Text → Element

  pub data Elements : Type 0 where
    finish : Elements
    element : Element → Elements → Elements
