-- ===== src/Tests/Language.antt =====
-- The operations on lists, dicts and documents, opened together for the tests.
use plan_auditor.Base.{
  mem, nodup, subset, diff, union, same_set, lookup, lookup_or, put, add, sort_with, take,
}
use plan_auditor.Json.{
  items, field_names, get, get_or, has_key, positive_int, as_object, as_list, as_text, iterate,
  objects, truthy, codes, is_blank, sort_texts, as_int, sort_ints,
}

unfoldable pub language : Unit {0}
unfolding mem nodup subset diff union same_set lookup lookup_or put add sort_with take items
    field_names get get_or has_key positive_int as_object as_list as_text iterate objects truthy
    codes is_blank sort_texts as_int sort_ints
language = tt
