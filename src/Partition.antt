-- ===== src/Partition.antt =====
-- Which tensors of a GGUF file a partition owns: partition_plan, partition_tensor_assignment and
-- the two lookups of gguf_inspector, in src/native/dli_common_cpp/src.
pub mod Ownership
mod Examples
use distributed_layer_infere.Common.{
  ℕ, Bool, true, false, not, List, [], ◌∷◌, ◌++◌, map, if◌then◌else◌, leb, ltb, ◌==◌, Bytes, codes,
  eqb, starts_with, ℤ, to_string,
}
use distributed_layer_infere.Gateway.Config.{PartitionComponents}

pub record PartitionComponentsPlan : Type 0 where
  pub embedding : Bool
  pub layers : List ℤ
  pub norm : Bool
  pub lm_head : Bool

pub record TensorNamePlan : Type 0 where
  pub partition_id : Bytes
  pub required_tensor_prefixes : List Bytes
  pub required_tensor_names : List Bytes

pub record GgufTensorInfo : Type 0 where
  pub name : Bytes
  pub type_name : Bytes
  pub shape : List ℤ
  pub byte_size : ℕ
  pub offset : ℕ

pub record GgufInspection : Type 0 where
  pub path : Bytes
  pub tensor_count : ℕ
  pub tensors : List GgufTensorInfo

pub record PartitionTensorAssignment : Type 0 where
  pub partition_id : Bytes
  pub tensor_names : List Bytes
  pub missing_required_names : List Bytes
  pub missing_required_prefixes : List Bytes

-- "blk.<layer>."
pub layer_prefix : ℤ → Bytes
unfolding to_string
layer_prefix layer = codes "blk." ++ (to_string layer ++ codes ".")

abbrev pub token_embd : Bytes
token_embd = codes "token_embd.weight"

abbrev pub output_norm : Bytes
output_norm = codes "output_norm.weight"

abbrev pub output : Bytes
output = codes "output.weight"

-- The tools hand the components of the stage map over as they are.
abbrev pub to_common_components : PartitionComponents → PartitionComponentsPlan
to_common_components c = record {
  embedding = c.embedding;
  layers = c.layers;
  norm = c.norm;
  lm_head = c.lm_head;
}

-- A name that is pushed when a component is owned.
abbrev pub pushed_if : Bool → Bytes → List Bytes
pushed_if true name = name ∷ []
pushed_if false name = []

pub build_llama_tensor_name_plan : Bytes → PartitionComponentsPlan → TensorNamePlan
build_llama_tensor_name_plan partition_id components = record {
  partition_id = partition_id;
  required_tensor_prefixes = map layer_prefix components.layers;
  required_tensor_names =
      pushed_if components.embedding token_embd
      ++ (pushed_if components.norm output_norm ++ pushed_if components.lm_head output);
}

-- A loop that returns at the first element that passes the test.
pub any {ℓ} : {A : Type ℓ} → (A → Bool) → List A → Bool
any test [] = false
any test (x ∷ xs) = if test x then true else any test xs

pub tensor_matches_plan : Bytes → TensorNamePlan → Bool
tensor_matches_plan name plan =
    if any (eqb name) plan.required_tensor_names
    then true
    else any (starts_with name) plan.required_tensor_prefixes

pub gguf_contains_tensor : GgufInspection → Bytes → Bool
gguf_contains_tensor inspection name = any (λ t. eqb t.name name) inspection.tensors

pub gguf_contains_tensor_with_prefix : GgufInspection → Bytes → Bool
gguf_contains_tensor_with_prefix inspection prefix =
    any (λ t. starts_with t.name prefix) inspection.tensors

-- A loop that pushes the elements that pass the test.
pub keep {ℓ} : {A : Type ℓ} → (A → Bool) → List A → List A
keep test [] = []
keep test (x ∷ xs) = if test x then x ∷ keep test xs else keep test xs

-- `std::string` compares bytes lexicographically; `true` if the first is not greater.
pub leb_text : Bytes → Bytes → Bool
leb_text [] ys = true
leb_text (x ∷ xs) [] = false
leb_text (x ∷ xs) (y ∷ ys) = if ltb x y then true else if x == y then leb_text xs ys else false

-- `std::sort` on strings, by insertion.
pub insert_text : Bytes → List Bytes → List Bytes
unfolding leb_text
insert_text x [] = x ∷ []
insert_text x (y ∷ ys) = if leb_text x y then x ∷ y ∷ ys else y ∷ insert_text x ys

pub sort_text : List Bytes → List Bytes
unfolding insert_text
sort_text [] = []
sort_text (x ∷ xs) = insert_text x (sort_text xs)

pub assign_tensors_to_partition : GgufInspection → TensorNamePlan → PartitionTensorAssignment
unfolding sort_text
assign_tensors_to_partition inspection plan = record {
  partition_id = plan.partition_id;
  tensor_names =
      sort_text
        (map (λ t. t.name) (keep (λ t. tensor_matches_plan t.name plan) inspection.tensors));
  missing_required_names =
      sort_text (keep (λ n. not (gguf_contains_tensor inspection n)) plan.required_tensor_names);
  missing_required_prefixes = sort_text (
      keep (λ p. not (gguf_contains_tensor_with_prefix inspection p))
        plan.required_tensor_prefixes);
}

pub assign_tensors_to_partitions :
    GgufInspection → List TensorNamePlan → List PartitionTensorAssignment
assign_tensors_to_partitions inspection [] = []
assign_tensors_to_partitions inspection (plan ∷ plans) =
    assign_tensors_to_partition inspection plan ∷ assign_tensors_to_partitions inspection plans
