-- ===== src/Tests/Notifications.antt =====
-- The notifications at concrete inputs.
use bff_api_go_collection_ac.Base.{◌≡◌, refl, List, [], ◌∷◌, none, some}
use bff_api_go_collection_ac.Base.Ints.{pos}
use bff_api_go_collection_ac.Base.Maps.{find}
use bff_api_go_collection_ac.Base.Results.{ok}
use bff_api_go_collection_ac.Base.Texts.{
  trim_space, trim_left, trim_right, is_space, to_lower, lower_char, IsFree-of, join,
}
use bff_api_go_collection_ac.Json.{num, str, obj, Fields, end, field, get}
use bff_api_go_collection_ac.Notifications.Cache.{
  new_memory_read_cache, normalize_email, user_key, get_unread_count,
}
use bff_api_go_collection_ac.Notifications.Cache.Fresh.{
  IsPlain, Event, set_unread, set_page, cache_after,
}
use bff_api_go_collection_ac.Notifications.Usecase.{
  memory, ListQuery, list_notifications, unread_count, mark_read, mark_all_read,
}
use bff_api_go_collection_ac.Notifications.Usecase.Reads.{reads-mark_read}

trimmed : trim_space "t1" ≡ "t1"
unfolding trim_space trim_left trim_right is_space
trimmed = refl

normalized : normalize_email "Ana@x.pe" ≡ "ana@x.pe"
unfolding trim_space trim_left trim_right is_space to_lower lower_char
normalized = refl

ana-IsPlain : IsPlain "t1" "Ana@x.pe"
ana-IsPlain = record {
  tenant = rw trimmed (IsFree-of b'|' "t1" refl);
  email = rw normalized (IsFree-of b'|' "ana@x.pe" refl);
}

abbrev first_page : ListQuery
first_page = record {
  tenant_id = "t1";
  user_email = "Ana@x.pe";
  state = "unread";
  severity = "";
  from_date = "";
  to_date = "";
  limit = pos 20;
  before_at = "";
  before_id = "";
}

abbrev two_unread : Fields
two_unread = field "count" (num (pos 2)) end

abbrev history : List Event
history =
    set_unread "t1" "Ana@x.pe" (pos 3) ∷ set_page "t1" "Ana@x.pe" "unread" "" (pos 20) none ∷ []

same_user : user_key "t1 " "ana@x.pe" ≡ user_key "t1" "Ana@x.pe"
unfolding trim_space trim_left trim_right is_space to_lower lower_char join
same_user = refl

reads-mark_read_example :
    ((unread_count memory
        (mark_read memory (some (cache_after history)) "t1 " "ana@x.pe" none).0
        "t1"
        "Ana@x.pe"
        (ok (some two_unread))).1
      ≡ ok (some two_unread))
    × ((list_notifications memory
          (mark_read memory (some (cache_after history)) "t1 " "ana@x.pe" none).0
          first_page
          (ok none)).1
        ≡ ok none)
    × ((unread_count memory
          (mark_all_read memory (some (cache_after history)) "t1 " "ana@x.pe" (ok none)).0
          "t1"
          "Ana@x.pe"
          (ok (some two_unread))).1
        ≡ ok (some two_unread))
    × ((list_notifications memory
          (mark_all_read memory (some (cache_after history)) "t1 " "ana@x.pe" (ok none)).0
          first_page
          (ok none)).1
        ≡ ok none)
reads-mark_read_example =
    reads-mark_read history "t1 " "ana@x.pe" first_page none (some two_unread) none
      (ana-IsPlain, (ana-IsPlain, tt)) ana-IsPlain same_user

no_count : get_unread_count new_memory_read_cache "t1" "ana@x.pe" ≡ none
unfolding get_unread_count find
no_count = refl

count_of_two : get "count" two_unread ≡ some (num (pos 2))
unfolding get
count_of_two = refl

abbrev nested : Fields
nested = field "data" (obj two_unread) end

data_of_nested : get "data" nested ≡ some (obj two_unread)
unfolding get
data_of_nested = refl

no_count_in_nested : get "count" nested ≡ none
unfolding get
no_count_in_nested = refl

abbrev overdue : Fields
overdue = field "ID" (num (pos 7)) (field "EventID" (str "41") (field "ReadAt" (str "") end))
