-- ===== src/Sinks/Manager/Outputs.antt =====
-- Which conversions the sinks of backend/srs/sinks/Manager.cpp ask for.
use srs_control.Base.{
  ℕ, ◌≡◌, ◌⊎◌, inl, inr, Bool, true, false, List, [], ◌∷◌, Option, All, Bool-cases, All-append,
  arith, Option-cases,
}
use srs_control.Converters.DataConvertOptions.{
  DataConvertOptions, raw, raw_frame, structure, proto, proto_frame,
}
use srs_control.Sinks.DataWriterOptions.{
  DataWriterOption, no_output, root, json, bin, udp, get_filetype_from_filename,
}
use srs_control.Sinks.Manager.{
  File, Manager, no_sinks, has_key, try_emplace, convert_str_to_endpoint, add_output,
  set_output_filenames,
}

abbrev pub OneOf : (a b mode : DataConvertOptions) → Type 0
OneOf a b mode = (mode ≡ a) ⊎ (mode ≡ b)

-- A kind of output with a conversion that its sink can read.
abbrev FitsKind : DataWriterOption × DataConvertOptions → Type 0
FitsKind (no_output, mode) = Unit
FitsKind (bin, mode) = OneOf raw_frame proto_frame mode
FitsKind (udp, mode) = OneOf raw proto mode
FitsKind (root, mode) = mode ≡ structure
FitsKind (json, mode) = mode ≡ structure

get_filetype-FitsKind : (filename : List ℕ) → FitsKind (get_filetype_from_filename filename)
unfolding get_filetype_from_filename
get_filetype-FitsKind filename = ground arith

-- Every sink reads what its conversion makes.
pub record IsManager (m : Manager) : Type 0 where
  pub binary_files :
      All (λ (f : File). OneOf raw_frame proto_frame f.required_conversion) m.binary_files
  pub udp_files : All (λ (f : File). OneOf raw proto f.required_conversion) m.udp_files
  pub json_files : All (λ (f : File). f.required_conversion ≡ structure) m.json_files
  pub root_files : All (λ (f : File). f.required_conversion ≡ structure) m.root_files

try_emplace-All :
    (P : DataConvertOptions → Type 0) (files : List File) (filename : List ℕ)
    (mode : DataConvertOptions)
    → P mode
    → All (λ (f : File). P f.required_conversion) files
    → All (λ (f : File). P f.required_conversion) (try_emplace files filename mode).0
try_emplace-All P files filename mode p all = elim (Bool-cases (has_key files filename)) [
  | inl e ↦ rw e all
  | inr e ↦ rw e (All-append (λ (f : File). P f.required_conversion) files _ all (p, tt))
]

pub no_sinks-IsManager : IsManager no_sinks
no_sinks-IsManager = record { binary_files = tt; udp_files = tt; json_files = tt; root_files = tt }

module _ {ℓ} {Endpoint : Type ℓ} (resolve : (ip port : List ℕ) → Option Endpoint) where
  add_output-IsManager :
      (has_root : Bool) (m : Manager) (filename : List ℕ)
      (kind : DataWriterOption × DataConvertOptions)
      → FitsKind kind
      → IsManager m
      → IsManager (add_output resolve has_root m filename kind).0
  unfolding add_output
  add_output-IsManager has_root m filename (no_output, mode) fits v = v
  add_output-IsManager has_root m filename (bin, mode) fits v = record {
    binary_files =
        try_emplace-All (OneOf raw_frame proto_frame) m.binary_files filename mode fits
          v.binary_files;
    udp_files = v.udp_files;
    json_files = v.json_files;
    root_files = v.root_files;
  }
  add_output-IsManager has_root m filename (udp, mode) fits v =
      elim (Option-cases (convert_str_to_endpoint resolve filename)) [
        | inl e ↦ rw (e, add_output) v
        | inr some_endpoint ↦
            rw (some_endpoint.1, add_output)
              (record {
                binary_files = v.binary_files;
                udp_files =
                    try_emplace-All (OneOf raw proto) m.udp_files filename mode fits v.udp_files;
                json_files = v.json_files;
                root_files = v.root_files;
              })
      ]
  add_output-IsManager true m filename (root, mode) fits v = record {
    binary_files = v.binary_files;
    udp_files = v.udp_files;
    json_files = v.json_files;
    root_files = try_emplace-All (λ c. c ≡ structure) m.root_files filename mode fits v.root_files;
  }
  add_output-IsManager false m filename (root, mode) fits v = v
  add_output-IsManager has_root m filename (json, mode) fits v = record {
    binary_files = v.binary_files;
    udp_files = v.udp_files;
    json_files = try_emplace-All (λ c. c ≡ structure) m.json_files filename mode fits v.json_files;
    root_files = v.root_files;
  }

  pub set_output_filenames-IsManager :
      (has_root : Bool) (filenames : List (List ℕ)) (m : Manager)
      → IsManager m
      → IsManager (set_output_filenames resolve has_root m filenames)
  unfolding set_output_filenames
  set_output_filenames-IsManager has_root [] m v = v
  set_output_filenames-IsManager has_root ([] ∷ filenames) m v =
      set_output_filenames-IsManager has_root filenames m v
  set_output_filenames-IsManager has_root ((c ∷ cs) ∷ filenames) m v =
      let kind = get_filetype_from_filename (c ∷ cs) in
      set_output_filenames-IsManager has_root filenames
        (add_output resolve has_root m (c ∷ cs) kind).0
        (add_output-IsManager has_root m (c ∷ cs) kind (get_filetype-FitsKind (c ∷ cs)) v)
