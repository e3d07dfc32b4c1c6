-- ===== src/ProjDb/Columns.antt =====
-- The tables that a build writes and their columns, as geodetic_engine/projdb/schema.py lists them.
-- A list of names is written as one text with blanks between them.
use geodetic_engine.Base.{ℕ, List, [], ◌∷◌, ◌++◌, ◌==◌, Text, text_eq, nat_eq, codes, if◌then◌else◌}
use geodetic_engine.Base.Dict.{Dict}
use Prim.Native.String.{String}

abbrev onto_first : ℕ → List Text → List Text
onto_first c [] = (c ∷ []) ∷ []
onto_first c (word ∷ words) = (c ∷ word) ∷ words

-- The words of a text.
abbrev split_words : Text → List Text
split_words [] = [] ∷ []
split_words (c ∷ t) = let rest = split_words t in if c == b' ' then [] ∷ rest else onto_first c rest

abbrev pub words : String → List Text
words s = split_words (codes s)

abbrev pub unit_of_measure_columns : List Text
unit_of_measure_columns = words "auth_name code name type conv_factor proj_short_name deprecated"

abbrev pub ellipsoid_columns : List Text
ellipsoid_columns =
    words "auth_name code name description celestial_body_auth_name celestial_body_code"
    ++ words "semi_major_axis uom_auth_name uom_code inv_flattening semi_minor_axis deprecated"

abbrev pub prime_meridian_columns : List Text
prime_meridian_columns = words "auth_name code name longitude uom_auth_name uom_code deprecated"

abbrev pub coordinate_system_columns : List Text
coordinate_system_columns = words "auth_name code type dimension"

abbrev pub axis_columns : List Text
axis_columns =
    words "auth_name code name abbrev orientation coordinate_system_auth_name"
    ++ words "coordinate_system_code coordinate_system_order uom_auth_name uom_code"

abbrev pub geodetic_datum_columns : List Text
geodetic_datum_columns =
    words "auth_name code name description ellipsoid_auth_name ellipsoid_code"
    ++ words "prime_meridian_auth_name prime_meridian_code publication_date"
    ++ words "frame_reference_epoch ensemble_accuracy anchor anchor_epoch deprecated"

abbrev pub vertical_datum_columns : List Text
vertical_datum_columns =
    words "auth_name code name description publication_date frame_reference_epoch"
    ++ words "ensemble_accuracy anchor anchor_epoch deprecated"

abbrev pub engineering_datum_columns : List Text
engineering_datum_columns =
    words "auth_name code name publication_date anchor anchor_epoch deprecated"

abbrev pub geodetic_crs_columns : List Text
geodetic_crs_columns =
    words "auth_name code name description type coordinate_system_auth_name"
    ++ words "coordinate_system_code datum_auth_name datum_code text_definition deprecated"

abbrev pub projected_crs_columns : List Text
projected_crs_columns =
    words "auth_name code name description coordinate_system_auth_name"
    ++ words "coordinate_system_code geodetic_crs_auth_name geodetic_crs_code"
    ++ words "conversion_auth_name conversion_code text_definition deprecated"

abbrev pub vertical_crs_columns : List Text
vertical_crs_columns =
    words "auth_name code name description coordinate_system_auth_name"
    ++ words "coordinate_system_code datum_auth_name datum_code deprecated"

abbrev pub engineering_crs_columns : List Text
engineering_crs_columns =
    words "auth_name code name description coordinate_system_auth_name"
    ++ words "coordinate_system_code datum_auth_name datum_code deprecated"

abbrev pub compound_crs_columns : List Text
compound_crs_columns =
    words "auth_name code name description horiz_crs_auth_name horiz_crs_code"
    ++ words "vertical_crs_auth_name vertical_crs_code deprecated"

abbrev pub conversion_param_columns : List Text
conversion_param_columns = words "auth_name code name"

abbrev pub conversion_table_columns : List Text
conversion_table_columns =
    words "auth_name code name description method_auth_name method_code param1_auth_name"
    ++ words "param1_code param1_value param1_uom_auth_name param1_uom_code param2_auth_name"
    ++ words "param2_code param2_value param2_uom_auth_name param2_uom_code param3_auth_name"
    ++ words "param3_code param3_value param3_uom_auth_name param3_uom_code param4_auth_name"
    ++ words "param4_code param4_value param4_uom_auth_name param4_uom_code param5_auth_name"
    ++ words "param5_code param5_value param5_uom_auth_name param5_uom_code param6_auth_name"
    ++ words "param6_code param6_value param6_uom_auth_name param6_uom_code param7_auth_name"
    ++ words "param7_code param7_value param7_uom_auth_name param7_uom_code deprecated"

abbrev pub helmert_transformation_table_columns : List Text
helmert_transformation_table_columns =
    words "auth_name code name description method_auth_name method_code"
    ++ words "source_crs_auth_name source_crs_code target_crs_auth_name target_crs_code"
    ++ words "accuracy tx ty tz translation_uom_auth_name translation_uom_code rx ry rz"
    ++ words "rotation_uom_auth_name rotation_uom_code scale_difference"
    ++ words "scale_difference_uom_auth_name scale_difference_uom_code rate_tx rate_ty rate_tz"
    ++ words "rate_translation_uom_auth_name rate_translation_uom_code rate_rx rate_ry rate_rz"
    ++ words "rate_rotation_uom_auth_name rate_rotation_uom_code rate_scale_difference"
    ++ words "rate_scale_difference_uom_auth_name rate_scale_difference_uom_code epoch"
    ++ words "epoch_uom_auth_name epoch_uom_code px py pz pivot_uom_auth_name pivot_uom_code"
    ++ words "operation_version deprecated"

abbrev pub grid_transformation_columns : List Text
grid_transformation_columns =
    words "auth_name code name description method_auth_name method_code method_name"
    ++ words "source_crs_auth_name source_crs_code target_crs_auth_name target_crs_code"
    ++ words "accuracy grid_param_auth_name grid_param_code grid_param_name grid_name"
    ++ words "grid2_param_auth_name grid2_param_code grid2_param_name grid2_name"
    ++ words "param1_auth_name param1_code param1_name param1_value param1_uom_auth_name"
    ++ words "param1_uom_code param2_auth_name param2_code param2_name param2_value"
    ++ words "param2_uom_auth_name param2_uom_code interpolation_crs_auth_name"
    ++ words "interpolation_crs_code operation_version deprecated"

abbrev pub other_transformation_columns : List Text
other_transformation_columns =
    words "auth_name code name description method_auth_name method_code method_name"
    ++ words "source_crs_auth_name source_crs_code target_crs_auth_name target_crs_code"
    ++ words "accuracy param1_auth_name param1_code param1_name param1_value"
    ++ words "param1_uom_auth_name param1_uom_code param2_auth_name param2_code param2_name"
    ++ words "param2_value param2_uom_auth_name param2_uom_code param3_auth_name param3_code"
    ++ words "param3_name param3_value param3_uom_auth_name param3_uom_code param4_auth_name"
    ++ words "param4_code param4_name param4_value param4_uom_auth_name param4_uom_code"
    ++ words "param5_auth_name param5_code param5_name param5_value param5_uom_auth_name"
    ++ words "param5_uom_code param6_auth_name param6_code param6_name param6_value"
    ++ words "param6_uom_auth_name param6_uom_code param7_auth_name param7_code param7_name"
    ++ words "param7_value param7_uom_auth_name param7_uom_code param8_auth_name param8_code"
    ++ words "param8_name param8_value param8_uom_auth_name param8_uom_code param9_auth_name"
    ++ words "param9_code param9_name param9_value param9_uom_auth_name param9_uom_code"
    ++ words "grid_param_auth_name grid_param_code grid_param_name grid_name"
    ++ words "interpolation_crs_auth_name interpolation_crs_code operation_version deprecated"

abbrev pub concatenated_operation_columns : List Text
concatenated_operation_columns =
    words "auth_name code name description source_crs_auth_name source_crs_code"
    ++ words "target_crs_auth_name target_crs_code accuracy operation_version deprecated"

abbrev pub concatenated_operation_step_columns : List Text
concatenated_operation_step_columns =
    words "operation_auth_name operation_code step_number step_auth_name step_code"
    ++ words "step_direction"

abbrev pub scope_columns : List Text
scope_columns = words "auth_name code scope deprecated"

abbrev pub extent_columns : List Text
extent_columns =
    words "auth_name code name description south_lat north_lat west_lon east_lon deprecated"

abbrev pub usage_columns : List Text
usage_columns =
    words "auth_name code object_table_name object_auth_name object_code extent_auth_name"
    ++ words "extent_code scope_auth_name scope_code"

abbrev pub alias_name_columns : List Text
alias_name_columns = words "table_name auth_name code alt_name source"

abbrev pub supersession_columns : List Text
supersession_columns =
    words "superseded_table_name superseded_auth_name superseded_code"
    ++ words "replacement_table_name replacement_auth_name replacement_code source"
    ++ words "same_source_target_crs"

abbrev pub authority_to_authority_preference_columns : List Text
authority_to_authority_preference_columns =
    words "source_auth_name target_auth_name allowed_authorities"

abbrev pub builtin_authorities_columns : List Text
builtin_authorities_columns = words "auth_name"

-- `TABLE_COLUMNS`
unfoldable pub table_columns : Dict Text (List Text)
table_columns =
    (codes "unit_of_measure", unit_of_measure_columns)
    ∷ (codes "ellipsoid", ellipsoid_columns)
    ∷ (codes "prime_meridian", prime_meridian_columns)
    ∷ (codes "coordinate_system", coordinate_system_columns)
    ∷ (codes "axis", axis_columns)
    ∷ (codes "geodetic_datum", geodetic_datum_columns)
    ∷ (codes "vertical_datum", vertical_datum_columns)
    ∷ (codes "engineering_datum", engineering_datum_columns)
    ∷ (codes "geodetic_crs", geodetic_crs_columns)
    ∷ (codes "projected_crs", projected_crs_columns)
    ∷ (codes "vertical_crs", vertical_crs_columns)
    ∷ (codes "engineering_crs", engineering_crs_columns)
    ∷ (codes "compound_crs", compound_crs_columns)
    ∷ (codes "conversion_param", conversion_param_columns)
    ∷ (codes "conversion_table", conversion_table_columns)
    ∷ (codes "helmert_transformation_table", helmert_transformation_table_columns)
    ∷ (codes "grid_transformation", grid_transformation_columns)
    ∷ (codes "other_transformation", other_transformation_columns)
    ∷ (codes "concatenated_operation", concatenated_operation_columns)
    ∷ (codes "concatenated_operation_step", concatenated_operation_step_columns)
    ∷ (codes "scope", scope_columns)
    ∷ (codes "extent", extent_columns)
    ∷ (codes "usage", usage_columns)
    ∷ (codes "alias_name", alias_name_columns)
    ∷ (codes "supersession", supersession_columns)
    ∷ (codes "authority_to_authority_preference", authority_to_authority_preference_columns)
    ∷ (codes "builtin_authorities", builtin_authorities_columns)
    ∷ []

-- `OBJECT_TABLES`
unfoldable pub object_tables : List Text
object_tables =
    words "unit_of_measure ellipsoid prime_meridian coordinate_system axis geodetic_datum"
    ++ words "vertical_datum engineering_datum geodetic_crs projected_crs vertical_crs"
    ++ words "engineering_crs compound_crs conversion_table helmert_transformation_table"
    ++ words "grid_transformation other_transformation concatenated_operation"

-- `FOREIGN_AUTHORITY_ALLOWED`
unfoldable pub foreign_authority_allowed : List Text
foreign_authority_allowed =
    words "authority_to_authority_preference supersession alias_name conversion_param"

-- `AUTHORITY_COLUMN.get(table, "auth_name")`
unfoldable pub authority_column : Text → Text
authority_column table =
    if table == codes "concatenated_operation_step"
    then codes "operation_auth_name"
    else codes "auth_name"
