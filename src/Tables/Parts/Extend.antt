-- ===== src/Tables/Parts/Extend.antt =====
-- The row of NET-SNMP-EXTEND-MIB.
use jt_snmpd.Prelude.{ℕ, refl, List, [], ◌∷◌, ◌++◌, leb, length, Bool-cases, inl, inr}
use jt_snmpd.Mib.Value.{Row}
use jt_snmpd.Tables.{Host, at, flatten}
use jt_snmpd.Tables.Names.{ns_extend, ns_extend_config, ns_extend_out1, ns_extend_out2}
use jt_snmpd.Tables.Extend.{
  max_extend_bytes, extend_index, smart_token, config_cells, out1_cells, out2_cells, entries_cells,
  extend_cells, fitting, extend_rows,
}
use jt_snmpd.Tables.Regions.{
  Region, AreCovered, IsPart, regions_apart, apart_from_all, all_regions_apart, apart_from_parts,
  all_parts_apart, flatten-IsUnique,
}
use jt_snmpd.Tables.Covers.{append-AreCovered}
use jt_snmpd.Tables.Parts.{at-IsPart}

abbrev config_regions : List Region
config_regions = (ns_extend_config, 2, 22) ∷ []

abbrev out1_regions : List Region
out1_regions = (ns_extend_out1, 1, 5) ∷ []

abbrev out2_regions : List Region
out2_regions = (ns_extend_out2, 2, 3) ∷ []

abbrev entries_regions : List Region
entries_regions = (ns_extend, 1, 2) ∷ []

abbrev pub extend_regions : List Region
extend_regions = config_regions ++ (out1_regions ++ (out2_regions ++ entries_regions))

config-IsPart :
    (host : Host)
    → IsPart config_regions (at ns_extend_config (extend_index smart_token) (config_cells host))
config-IsPart host =
    at-IsPart ns_extend_config (extend_index smart_token) 2 22 (config_cells host) refl refl

out1-IsPart :
    (blob : List ℕ)
    → IsPart out1_regions (at ns_extend_out1 (extend_index smart_token) (out1_cells blob))
out1-IsPart blob =
    at-IsPart ns_extend_out1 (extend_index smart_token) 1 5 (out1_cells blob) refl refl

out2-IsPart :
    (blob : List ℕ)
    → IsPart out2_regions
        (at ns_extend_out2 (extend_index smart_token ++ (1 ∷ [])) (out2_cells blob))
out2-IsPart blob =
    at-IsPart ns_extend_out2 (extend_index smart_token ++ (1 ∷ [])) 2 3 (out2_cells blob) refl refl

entries-IsPart : IsPart entries_regions (at ns_extend (0 ∷ []) entries_cells)
entries-IsPart = at-IsPart ns_extend (0 ∷ []) 1 2 entries_cells refl refl

abbrev line_rows : List ℕ → List Row
line_rows blob =
    at ns_extend_out2 (extend_index smart_token ++ (1 ∷ [])) (out2_cells blob)
    ++ at ns_extend (0 ∷ []) entries_cells

abbrev out_rows : List ℕ → List Row
out_rows blob = at ns_extend_out1 (extend_index smart_token) (out1_cells blob) ++ line_rows blob

out_rows-AreCovered :
    (blob : List ℕ) → AreCovered (out1_regions ++ (out2_regions ++ entries_regions)) (out_rows blob)
out_rows-AreCovered blob =
    append-AreCovered out1_regions (out2_regions ++ entries_regions)
      (at ns_extend_out1 (extend_index smart_token) (out1_cells blob)) (line_rows blob)
      (out1-IsPart blob).1
      (append-AreCovered out2_regions entries_regions
        (at ns_extend_out2 (extend_index smart_token ++ (1 ∷ [])) (out2_cells blob))
        (at ns_extend (0 ∷ []) entries_cells) (out2-IsPart blob).1 entries-IsPart.1)

extend_cells-IsPart : (host : Host) (blob : List ℕ) → IsPart extend_regions (extend_cells host blob)
unfolding all_parts_apart apart_from_parts all_regions_apart apart_from_all regions_apart flatten at
extend_cells-IsPart host blob = (
  flatten-IsUnique (config_regions ∷ out1_regions ∷ out2_regions ∷ entries_regions ∷ [])
      (at ns_extend_config (extend_index smart_token) (config_cells host)
        ∷ at ns_extend_out1 (extend_index smart_token) (out1_cells blob)
        ∷ at ns_extend_out2 (extend_index smart_token ++ (1 ∷ [])) (out2_cells blob)
        ∷ at ns_extend (0 ∷ []) entries_cells
        ∷ [])
      refl (config-IsPart host, (out1-IsPart blob, (out2-IsPart blob, (entries-IsPart, tt)))),
  append-AreCovered config_regions (out1_regions ++ (out2_regions ++ entries_regions))
      (at ns_extend_config (extend_index smart_token) (config_cells host)) (out_rows blob)
      (config-IsPart host).1 (out_rows-AreCovered blob),
)

module _ {A : Type 0} (encode : List A → List ℕ) where
  pub extend_rows-IsPart :
      (host : Host) (disks : List A) → IsPart extend_regions (extend_rows encode host disks)
  unfolding extend_rows
  extend_rows-IsPart host [] = (tt, tt)
  extend_rows-IsPart host (d ∷ ds) =
      let blob : List ℕ = encode (fitting encode (d ∷ ds)) in
      elim (Bool-cases (leb (length blob) max_extend_bytes)) [
        | inl fits ↦ rw fits (extend_cells-IsPart host blob)
        | inr over ↦ rw over (tt, tt)
      ]
