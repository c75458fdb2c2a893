-- ===== src/MemoEditor/Tests/Equality.antt =====
-- An equality test, with its law, for each type that the update compares.
use kube_memos_eks.MemoEditor.State.{
  Timestamp, Visibility, private, protected, public, Attachment, RelationType, unspecified,
  reference, comment, RelatedMemo, MemoRelation, Location,
}
use kube_memos_eks.MemoEditor.Service.{Externals}
use kube_memos_eks.Base.{
  String, ◌==◌, ==_iff, Eq, text_eq, text_eq_iff, ℕ, ◌*◌, ◌/◌, ◌≡◌, ◌↔◌, Bool, true, false, ◌&&◌,
  Option, none, some, List, [], ◌∷◌, arith, eq_iff, str_eq,
}

-- An equality test for each type that is compared deeply.
module _ {A : Type 0} (e : Eq A) where
  abbrev eq_list : List A → List A → Bool
  eq_list [] [] = true
  eq_list [] (_ ∷ _) = false
  eq_list (_ ∷ _) [] = false
  eq_list (a ∷ as') (b ∷ bs) = e.beq a b && eq_list as' bs

  pub eq_list_iff : (xs ys : List A) → (eq_list xs ys ≡ true) ↔ (xs ≡ ys)
  eq_list_iff [] [] = ground arith
  eq_list_iff [] (y ∷ ys) = ground arith
  eq_list_iff (x ∷ xs) [] = ground arith
  eq_list_iff (x ∷ xs) (y ∷ ys) = ground (arith, e.beq_iff x y, eq_list_iff xs ys)

  abbrev list_eq : Eq (List A)
  list_eq = record { beq = eq_list; beq_iff = eq_list_iff }

  abbrev eq_option : Option A → Option A → Bool
  eq_option none none = true
  eq_option none (some _) = false
  eq_option (some _) none = false
  eq_option (some a) (some b) = e.beq a b

  pub eq_option_iff : (o p : Option A) → (eq_option o p ≡ true) ↔ (o ≡ p)
  eq_option_iff none none = ground arith
  eq_option_iff none (some b) = ground arith
  eq_option_iff (some a) none = ground arith
  eq_option_iff (some a) (some b) = ground (arith, e.beq_iff a b)

  abbrev option_eq : Eq (Option A)
  option_eq = record { beq = eq_option; beq_iff = eq_option_iff }

abbrev timestamp_eq : Eq Timestamp
timestamp_eq = record {
  beq = λ a b. a.seconds == b.seconds && a.nanos == b.nanos;
  beq_iff = λ a b. ground arith;
}

abbrev string_eq : Eq String
string_eq = record { beq = str_eq; beq_iff = eq_iff }

abbrev eq_attachment : Attachment → Attachment → Bool
eq_attachment a b =
    str_eq a.name b.name
    && (str_eq a.filename b.filename
        && (str_eq a.type b.type
            && (a.size == b.size
                && (text_eq a.content b.content
                    && (str_eq a.external_link b.external_link
                        && (eq_option timestamp_eq a.create_time b.create_time
                            && eq_option string_eq a.memo b.memo))))))

pub eq_attachment_iff : (a b : Attachment) → (eq_attachment a b ≡ true) ↔ (a ≡ b)
eq_attachment_iff a b = ground (
  arith,
  eq_iff a.name b.name,
  eq_iff a.filename b.filename,
  eq_iff a.type b.type,
  text_eq_iff a.content b.content,
  eq_iff a.external_link b.external_link,
  eq_option_iff timestamp_eq a.create_time b.create_time,
  eq_option_iff string_eq a.memo b.memo,
)

abbrev eq_visibility : Visibility → Visibility → Bool
eq_visibility private private = true
eq_visibility protected protected = true
eq_visibility public public = true
eq_visibility _ _ = false

pub eq_visibility_iff : (v w : Visibility) → (eq_visibility v w ≡ true) ↔ (v ≡ w)
eq_visibility_iff private private = ground arith
eq_visibility_iff private protected = ground arith
eq_visibility_iff private public = ground arith
eq_visibility_iff protected private = ground arith
eq_visibility_iff protected protected = ground arith
eq_visibility_iff protected public = ground arith
eq_visibility_iff public private = ground arith
eq_visibility_iff public protected = ground arith
eq_visibility_iff public public = ground arith

abbrev eq_type : RelationType → RelationType → Bool
eq_type unspecified unspecified = true
eq_type reference reference = true
eq_type comment comment = true
eq_type _ _ = false

pub eq_type_iff : (v w : RelationType) → (eq_type v w ≡ true) ↔ (v ≡ w)
eq_type_iff unspecified unspecified = ground arith
eq_type_iff unspecified reference = ground arith
eq_type_iff unspecified comment = ground arith
eq_type_iff reference unspecified = ground arith
eq_type_iff reference reference = ground arith
eq_type_iff reference comment = ground arith
eq_type_iff comment unspecified = ground arith
eq_type_iff comment reference = ground arith
eq_type_iff comment comment = ground arith

abbrev related_eq : Eq RelatedMemo
related_eq = record {
  beq = λ a b. str_eq a.name b.name && str_eq a.snippet b.snippet;
  beq_iff = λ a b. ground (arith, eq_iff a.name b.name, eq_iff a.snippet b.snippet);
}

abbrev relation_eq : Eq MemoRelation
relation_eq = record {
  beq = λ a b.
      eq_type a.type b.type
      && (eq_option related_eq a.memo b.memo && eq_option related_eq a.related_memo b.related_memo);
  beq_iff = λ a b. ground (
    arith,
    eq_type_iff a.type b.type,
    eq_option_iff related_eq a.memo b.memo,
    eq_option_iff related_eq a.related_memo b.related_memo,
  );
}

abbrev location_eq : Eq Location
location_eq = record {
  beq = λ a b.
      str_eq a.placeholder b.placeholder
      && (a.latitude == b.latitude && a.longitude == b.longitude);
  beq_iff = λ a b. ground (arith, eq_iff a.placeholder b.placeholder);
}

abbrev nat_eq : Eq ℕ
nat_eq = record { beq = λ a b. a == b; beq_iff = ==_iff }

abbrev pub externals : Externals
externals = record {
  equal_content = record { beq = text_eq; beq_iff = text_eq_iff };
  equal_visibility = record { beq = eq_visibility; beq_iff = eq_visibility_iff };
  equal_attachments = list_eq (record { beq = eq_attachment; beq_iff = eq_attachment_iff });
  equal_relations = list_eq relation_eq;
  equal_location = option_eq location_eq;
  equal_date = option_eq nat_eq;
  timestamp_date = λ t. t.seconds * 1000;
  timestamp_from_date = λ n. record { seconds = n / 1000; nanos = 0 };
}
