-- ===== src/MemoEditor/Attachments.antt =====
-- What kind of file an attachment is, and the list that the editor shows (utils/attachment.ts,
-- components/MemoEditor/types/attachment.ts and components/MemoEditor/components/AttachmentList.tsx).
-- A media type and a url are texts here.
pub mod Laws
use kube_memos_eks.Base.{
  ltb, if◌then◌else◌, length, filter, any, Text, codes, text_eq, starts_with, ℕ, String, Bool, true,
  false, not, ◌&&◌, ◌||◌, List, [], ◌∷◌, ◌++◌, map, str_eq,
}

pub record Attachment : Type 0 where
  pub name : Text
  pub filename : Text
  pub type : Text
  pub size : ℕ
  pub external_link : Text

-- `includes`
abbrev pub includes : Text → Text → Bool
includes [] t = starts_with [] t
includes (c ∷ s) t = starts_with (c ∷ s) t || includes s t

-- `getAttachmentUrl`, given `window.location.origin`.
unfoldable pub get_attachment_url : Text → Attachment → Text
get_attachment_url origin a =
    if ltb 0 (length a.external_link)
    then a.external_link
    else origin ++ (codes "/file/" ++ (a.name ++ (codes "/" ++ a.filename)))

-- `getAttachmentThumbnailUrl`
unfoldable pub get_attachment_thumbnail_url : Text → Attachment → Text
get_attachment_thumbnail_url origin a =
    origin ++ (codes "/file/" ++ (a.name ++ (codes "/" ++ (a.filename ++ codes "?thumbnail=true"))))

unfoldable pub is_psd : Text → Bool
is_psd t =
    text_eq t (codes "image/vnd.adobe.photoshop")
    || (text_eq t (codes "image/x-photoshop") || text_eq t (codes "image/photoshop"))

-- `isImage`
unfoldable pub is_image : Text → Bool
is_image t = starts_with t (codes "image/") && not (is_psd t)

-- `isMidiFile`
unfoldable pub is_midi_file : Text → Bool
is_midi_file t =
    text_eq t (codes "audio/midi")
    || (text_eq t (codes "audio/mid")
        || (text_eq t (codes "audio/x-midi") || text_eq t (codes "application/x-midi")))

-- `getAttachmentType`
unfoldable pub get_attachment_type : Attachment → String
get_attachment_type a =
    if is_image a.type
    then "image/*"
    else if starts_with a.type (codes "video")
    then "video/*"
    else if starts_with a.type (codes "audio") && not (is_midi_file a.type)
    then "audio/*"
    else if starts_with a.type (codes "text")
    then "text/*"
    else if starts_with a.type (codes "application/epub+zip")
    then "application/epub+zip"
    else if starts_with a.type (codes "application/pdf")
    then "application/pdf"
    else if includes a.type (codes "word")
    then "application/msword"
    else if includes a.type (codes "excel")
    then "application/msexcel"
    else if starts_with a.type (codes "application/zip")
    then "application/zip"
    else if starts_with a.type (codes "application/x-java-archive")
    then "application/x-java-archive"
    else "application/octet-stream"

pub data FileCategory : Type 0 where
  image video document : FileCategory

pub record AttachmentItem : Type 0 where
  pub id : Text
  pub filename : Text
  pub category : FileCategory
  pub mime_type : Text
  pub thumbnail_url : Text
  pub source_url : Text
  pub size : ℕ
  pub is_local : Bool

-- `categorizeFile`
unfoldable pub categorize_file : Text → FileCategory
categorize_file t =
    if starts_with t (codes "image/")
    then image
    else if starts_with t (codes "video/")
    then video
    else document

-- `attachmentToItem`
unfoldable pub attachment_to_item : Text → Attachment → AttachmentItem
attachment_to_item origin a = record {
  id = a.name;
  filename = a.filename;
  category = categorize_file a.type;
  mime_type = a.type;
  thumbnail_url =
      if str_eq (get_attachment_type a) "image/*"
      then get_attachment_thumbnail_url origin a
      else get_attachment_url origin a;
  source_url = get_attachment_url origin a;
  size = a.size;
  is_local = false;
}

-- The browser's file and the url of its preview.
pub record LocalFile : Type 0 where
  pub name : Text
  pub type : Text
  pub size : ℕ
  pub preview_url : Text

-- `fileToItem`
unfoldable pub file_to_item : LocalFile → AttachmentItem
file_to_item f = record {
  id = f.preview_url;
  filename = f.name;
  category = categorize_file f.type;
  mime_type = f.type;
  thumbnail_url = f.preview_url;
  source_url = f.preview_url;
  size = f.size;
  is_local = true;
}

-- `toAttachmentItems`
unfoldable pub to_attachment_items : Text → List Attachment → List LocalFile → List AttachmentItem
to_attachment_items origin attachments local_files =
    map (attachment_to_item origin) attachments ++ map file_to_item local_files

abbrev pub eq_category : FileCategory → FileCategory → Bool
eq_category image image = true
eq_category video video = true
eq_category document document = true
eq_category _ _ = false

-- `filterByCategory`
unfoldable pub filter_by_category : List AttachmentItem → List FileCategory → List AttachmentItem
filter_by_category items categories = filter (λ i. any (eq_category i.category) categories) items

-- The loop of `separateMediaAndDocs`: the two lists so far, to whose ends it pushes.
abbrev pub is_media : AttachmentItem → Bool
is_media i = eq_category i.category image || eq_category i.category video

abbrev pub separate_from :
    List AttachmentItem
    → List AttachmentItem
    → List AttachmentItem
    → List AttachmentItem × List AttachmentItem
separate_from media docs [] = (media, docs)
separate_from media docs (i ∷ items) =
    if is_media i
    then separate_from (media ++ i ∷ []) docs items
    else separate_from media (docs ++ i ∷ []) items

-- `separateMediaAndDocs`
unfoldable pub separate_media_and_docs :
    List AttachmentItem → List AttachmentItem × List AttachmentItem
separate_media_and_docs items = separate_from [] [] items
