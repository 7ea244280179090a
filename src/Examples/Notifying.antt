-- ===== src/Examples/Notifying.antt =====
-- One article, read and posted.
use publish_carousel.Prelude.{
  ℕ, suc, inl, inr, none, some, String, ◌≡◌, refl, [], ◌∷◌, some, ok, if◌then◌else◌, text_eq,
  lowers_to, is_blank,
}
use publish_carousel.Native.Content.{text, Document, lookup_key, Content}
use publish_carousel.Tasks.PublishTask.{
  Services, image_filter, publish_reference_attr, prepare, execute,
}
use publish_carousel.Cms.Notifier.{Client}
use publish_carousel.Tasks.PublishTask.Notified.{
  IsPublishable, prepare-IsPublishable, execute-notify,
}

abbrev article_body : Document
article_body = ("type", text "Article") ∷ ("publishReference", text "tid_1") ∷ []

abbrev article : Content
article = record {
  body = some article_body;
  content_type = "application/json";
  origin_system_id = "";
}

-- The world counts the posts.
abbrev services : Services ℕ
services = record {
  get = λ collection uuid w. (w, ok article);
  is_image = image_filter;
  hash_body = λ body. ok "4242";
  notify = λ origin tid content hash w. (suc w, ok tt);
  new_transaction_id = λ w. (w, "tid_new");
  unix_seconds = λ w. "1496312345";
}

prepare-IsPublishable_example :
    IsPublishable services "u1" article × ((services.get "methode" "u1" 0).1 ≡ ok article)
unfolding prepare image_filter lookup_key lowers_to is_blank
prepare-IsPublishable_example =
    prepare-IsPublishable services "methode" "u1" "tid_1_carousel_1496312345" article 0 refl

execute-notify_example :
    (posted : Document) × (execute services "u1" article "methode-web-pub" "tid_2" 0
      ≡ services.notify "methode-web-pub" "tid_2" (record article { body = some posted }) "4242" 0)
    × ((k : String)
        → lookup_key k posted ≡ (
            if text_eq publish_reference_attr k
            then some (text "tid_2")
            else lookup_key k article_body))
execute-notify_example =
    execute-notify services "u1" "methode-web-pub" "tid_2" "4242" article article_body 0 refl refl

-- A client that accepts each request and counts them.
abbrev client : Client ℕ Document
client = record {
  encode = λ o. elim o [ none ↦ inl "nil" | some d ↦ inr d ];
  check_url = λ url. none;
  send = λ request w. (suc w, ok 200);
  decimal = λ n. "";
}
