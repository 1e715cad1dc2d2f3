-- ===== src/Notifications/Contract/Stable.antt =====
-- An item in the form of the contract stays as it is.
use bff_api_go_collection_ac.Base.{
  String, ◌≡◌, refl, List, none, some, ◌==◌, Bool-cases, inl, inr, eq_iff,
}
use bff_api_go_collection_ac.Base.Ints.{ℤ}
use bff_api_go_collection_ac.Json.{null, num, str, obj, Fields, end, field, get}
use bff_api_go_collection_ac.Notifications.Contract.{
  pick_notification_field, notification_string, text_or_nil, notification_int,
  map_notification_item, keys_of, notification_metadata,
}

abbrev Lacks : Fields → List String → Type 0
Lacks m List.[] = Unit
Lacks m (List.◌∷◌ j js) = (get j m ≡ none) × Lacks m js

pick-Lacks : (m : Fields) (ks : List String) → Lacks m ks → pick_notification_field m ks ≡ null
unfolding pick_notification_field
pick-Lacks m List.[] h = refl
pick-Lacks m (List.◌∷◌ k ks) (e, h) = rw e (pick-Lacks m ks h)

notification_string-str :
    (m : Fields) (k : String) (ks : List String) (s : String)
    → get k m ≡ some (str s)
    → Lacks m ks
    → notification_string m (List.◌∷◌ k ks) ≡ s
unfolding notification_string pick_notification_field
notification_string-str m k ks s e h = elim (Bool-cases (s == "")) [
  | inl blank ↦ rw (e, blank, pick-Lacks m ks h, (eq_iff s "").0 blank)
  | inr filled ↦ rw (e, filled)
]

text_or_nil-text_of :
    (m : Fields) (k : String) (ks : List String) (s : String)
    → get k m ≡ some (text_or_nil s)
    → Lacks m ks
    → text_or_nil (notification_string m (List.◌∷◌ k ks)) ≡ text_or_nil s
unfolding notification_string pick_notification_field
text_or_nil-text_of m k ks s e h = elim (Bool-cases (s == "")) [
  | inl blank ↦ rw (rw blank at e, pick-Lacks m ks h, (eq_iff s "").0 blank)
  | inr filled ↦ rw (rw filled at e, filled, filled)
]

notification_int-num :
    (m : Fields) (k : String) (ks : List String) (n : ℤ)
    → get k m ≡ some (num n)
    → notification_int m (List.◌∷◌ k ks) ≡ n
unfolding notification_int pick_notification_field
notification_int-num m k ks n e = rw e

metadata-obj : (m o : Fields) → get "metadata" m ≡ some (obj o) → notification_metadata m ≡ o
unfolding pick_notification_field
metadata-obj m o e = rw e

-- The item of the contract with these values.
abbrev item_of :
    (id : String)
    → ℤ
    → (type severity destination : String) → Fields
    → (created_at read_at : String) → Fields
item_of id n type severity destination metadata created_at read_at = field "id" (str id) (
    field "event_id" (num n) (
      field "type" (str type) (
        field "severity" (str severity) (
          field "destination" (str destination) (
            field "metadata" (obj metadata)
              (field "created_at" (str created_at) (field "read_at" (text_or_nil read_at) end)))))))

map_notification_item-item_of :
    (id : String) (n : ℤ) (type severity destination : String) (metadata : Fields)
    (created_at read_at : String)
    → (let m = item_of id n type severity destination metadata created_at read_at in
        map_notification_item m ≡ m)
unfolding map_notification_item get
map_notification_item-item_of id n type severity destination metadata created_at read_at =
    let m = item_of id n type severity destination metadata created_at read_at in
    rw (
      notification_string-str m "id" (List.◌∷◌ "ID" List.[]) id refl (refl, tt),
      notification_int-num m "event_id" (List.◌∷◌ "EventID" List.[]) n refl,
      notification_string-str m "type" (keys_of "NotificationType" "notification_type") type refl
          (refl, (refl, tt)),
      notification_string-str m "severity" (List.◌∷◌ "Severity" List.[]) severity refl (refl, tt),
      notification_string-str m "destination" (List.◌∷◌ "Destination" List.[]) destination refl
          (refl, tt),
      metadata-obj m metadata refl,
      notification_string-str m "created_at" (List.◌∷◌ "CreatedAt" List.[]) created_at refl
          (refl, tt),
      text_or_nil-text_of m "read_at" (List.◌∷◌ "ReadAt" List.[]) read_at refl (refl, tt),
    )

-- An item in the form of the contract is in this form already: to map it once more changes
-- nothing, whatever the core has sent.
pub map_notification_item_idem :
    (item : Fields)
    → map_notification_item (map_notification_item item) ≡ map_notification_item item
unfolding map_notification_item
map_notification_item_idem item = map_notification_item-item_of _ _ _ _ _ _ _ _
