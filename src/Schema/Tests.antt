-- ===== src/Schema/Tests.antt =====
-- Handlers of schemas against a registry that always answers the same.
use terraform_provider_redpa.Base.{
  ℕ, ◌+◌, ◌≡◌, refl, false, Option, none, some, [], ◌∷◌, ◌++◌, arith, Text, codes, same, pos, atoi,
}
use terraform_provider_redpa.Errors.{reply}
use terraform_provider_redpa.Values.{null, known}
use terraform_provider_redpa.Avro.{scalar}
use terraform_provider_redpa.Protobuf.{proto_package_name, canon_proto_elements, render_elements}
use terraform_provider_redpa.Protobuf.Syntax.{Element, enum_decl, Elements, finish, element}
use terraform_provider_redpa.Protobuf.Reordering.{exchange}
use terraform_provider_redpa.Schema.Import.{parse_import_id, parse_import_id_join}
use terraform_provider_redpa.Schema.Model.{
  protobuf, SchemaModel, SubjectSchema, Bodies, update_from_schema,
}
use terraform_provider_redpa.Schema.Model.Body.{update_from_schema-Reordered}
use terraform_provider_redpa.Schema.Registry.{Registry, removed, connect}
use terraform_provider_redpa.Schema.Create.{
  SchemaCreationExplained, create_schema_resource, create_schema_resource-Explained,
}
use terraform_provider_redpa.Schema.Read.{
  SchemaRefreshExplained, read_schema_resource, read_schema_resource-Explained,
}
use terraform_provider_redpa.Schema.Update.{
  SchemaUpdateExplained, update_schema_resource, update_schema_resource-Explained,
}
use terraform_provider_redpa.Schema.Delete.{
  IsDecided, delete_schema_resource, delete_schema_resource-IsDecided,
}

abbrev state_of : Text → Element
state_of name = enum_decl name finish

abbrev written : Elements
written = element (state_of (codes "Kind")) (element (state_of (codes "Color")) finish)

abbrev returned : Elements
returned = element (state_of (codes "Color")) (element (state_of (codes "Kind")) finish)

abbrev parse : Text → Option Elements
parse [] = none
parse (c ∷ []) = some written
parse (c ∷ d ∷ s) = some returned

abbrev bodies : Bodies
bodies = record {
  parse_protobuf = parse;
  decode = λ s. some (scalar s);
  encode = λ v. none;
  json_form = λ s. some s;
  type_text = λ k. codes "PROTOBUF";
}

abbrev answered : SubjectSchema
answered = record {
  id = pos 7;
  version = pos 2;
  content = record { schema = codes "bb"; kind = protobuf; references = [] };
}

abbrev model : SchemaModel
model = record {
  allow_deletion = known false;
  cluster_id = known (codes "c1");
  compatibility = known (codes "full");
  id = known (pos 7);
  password = null;
  password_wo = null;
  references = null;
  schema = known (codes "a");
  schema_type = known (codes "PROTOBUF");
  subject = known (codes "orders");
  username = null;
  version = known (pos 1);
}

-- The outside counts the calls that change the registry.
abbrev standing : Registry ℕ
standing = record {
  bodies = bodies;
  wrap = λ text err. record err { text = text ++ err.text };
  level_error = λ level. none;
  get_client = λ c u p t. (t, none);
  create_schema = λ s q t. (reply answered, t + 1);
  schema_by_version = λ s v t. (reply answered, t);
  schemas = λ s t. (reply (answered ∷ []), t);
  delete_subject = λ s t. (t + 1, none);
  set_compatibility = λ l s t. (none ∷ [], t + 1);
  compatibility = λ s t. (reply (codes "FULL") ∷ [], t);
}

update_from_schema-Reordered_example :
    (update_from_schema bodies answered model).schema ≡ known (codes "a")
unfolding proto_package_name canon_proto_elements render_elements same
update_from_schema-Reordered_example =
    update_from_schema-Reordered bodies model answered (codes "a") {es = written} {fs = returned}
      refl refl refl refl refl refl exchange refl

create_schema_resource-Explained_example :
    SchemaCreationExplained standing model 0 (create_schema_resource standing model 0)
create_schema_resource-Explained_example = create_schema_resource-Explained standing model 0

read_schema_resource-Explained_example :
    SchemaRefreshExplained standing model (read_schema_resource standing model 0)
read_schema_resource-Explained_example = read_schema_resource-Explained standing model 0

update_schema_resource-Explained_example :
    SchemaUpdateExplained standing model model 0 (update_schema_resource standing model model 0)
update_schema_resource-Explained_example = update_schema_resource-Explained standing model model 0

delete_schema_resource-IsDecided_example :
    IsDecided standing model (connect standing model 0) (delete_schema_resource standing model 0)
delete_schema_resource-IsDecided_example = delete_schema_resource-IsDecided standing model 0

-- The subject is deleted although allow_deletion is false.
deleted_anyway_test : delete_schema_resource standing model 0 ≡ ([], removed, 1)
unfolding delete_schema_resource
deleted_anyway_test = refl

parse_import_id_join_example :
    (parse_import_id (λ t. t) (codes "c1" ++ 44 ∷ (codes "orders" ++ 44 ∷ codes "3"))
      ≡ reply (record {
        cluster_id = codes "c1";
        subject = codes "orders";
        version = pos 3;
        username = [];
        password = [];
      }))
    × (parse_import_id
          (λ t. t)
          (codes "c1"
            ++ 44 ∷ (codes "orders" ++ 44 ∷ (codes "3" ++ 44 ∷ (codes "u" ++ 44 ∷ codes "p"))))
        ≡ reply (record {
          cluster_id = codes "c1";
          subject = codes "orders";
          version = pos 3;
          username = codes "u";
          password = codes "p";
        }))
unfolding atoi
parse_import_id_join_example =
    parse_import_id_join (λ t. t) (codes "c1") (codes "orders") (codes "3") (codes "u") (codes "p")
      (pos 3) (ground arith) (ground arith) (ground arith) (ground arith) (ground arith) refl
