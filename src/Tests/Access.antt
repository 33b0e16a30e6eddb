-- ===== src/Tests/Access.antt =====
-- Documents whose bytes are how they are locked, the number of their pages and their contents, entry by
-- entry; and classification and orientation of such files.
use mathlib.Core.List.{append_assoc, append-nil}
use pdf_engine_toolbox.Base.{
  ℕ, zero, suc, ◌+◌, ◌-◌, ◌≤◌, ◌≡◌, refl, Bool, true, false, some, List, [], ◌∷◌, ◌++◌, leb, ◌==◌,
  length, if◌then◌else◌, arith,
}
use pdf_engine_toolbox.Base.Int.{ℤ, pos, negsuc, pos_part}
use pdf_engine_toolbox.Errors.{Text, codes, text_eq}
use pdf_engine_toolbox.Pdf.{done, Opened, opened, Fitz, open_pdf, range_from}
use pdf_engine_toolbox.Pdf.Access.{
  TocEntry, BookmarkEntry, Protection, owner, fields_present, UnlockedPdf, Info, has_encryption,
  get_info, add_bookmarks, authorize_and_unlock_pdf,
}
use pdf_engine_toolbox.Pdf.Access.Authority.{Authorized, authorize_and_unlock_pdf-Authorized}
use pdf_engine_toolbox.Pdf.Access.Outline.{IsToc, TocDocumented, get_info-add_bookmarks}
use pdf_engine_toolbox.Pdf.Classify.{classify_texts}
use pdf_engine_toolbox.Pdf.Classify.Shadowed.{IsReachable, classify_texts-IsReachable}

-- A title is written with a 1 before each character, and ends at a 0.
abbrev written_entry : Text → ℕ → ℕ → Text → Text
written_entry [] level page rest = 0 ∷ level ∷ page ∷ rest
written_entry (c ∷ title) level page rest = 1 ∷ c ∷ written_entry title level page rest

abbrev written_toc : List TocEntry → Text
written_toc [] = []
written_toc (e ∷ es) = written_entry e.title e.level (pos_part e.page) (written_toc es)

abbrev read_toc : Text → Text → List TocEntry
read_toc title [] = []
read_toc title (zero ∷ level ∷ page ∷ rest) =
    record { level = level; title = title; page = pos page } ∷ read_toc [] rest
read_toc title (suc n ∷ c ∷ rest) = read_toc (title ++ c ∷ []) rest
read_toc title _ = []

read_toc-written_entry :
    (before title : Text) (level page : ℕ) (rest : Text)
    → read_toc before (written_entry title level page rest)
      ≡ record { level = level; title = before ++ title; page = pos page } ∷ read_toc [] rest
read_toc-written_entry before [] level page rest = rw (append-nil before)
read_toc-written_entry before (c ∷ title) level page rest = rw (
  read_toc-written_entry (before ++ c ∷ []) title level page rest,
  append_assoc before (c ∷ []) title,
)

pos-pos_part : (z : ℤ) → 1 ≤ pos_part z → pos (pos_part z) ≡ z
pos-pos_part (pos n) h = refl
pos-pos_part (negsuc n) h = elim h [ ]

read_toc-written_toc :
    (before total : ℕ) (es : List TocEntry)
    → IsToc before total es
    → read_toc [] (written_toc es) ≡ es
read_toc-written_toc before total [] h = refl
read_toc-written_toc before total (e ∷ es) h = rw (
  read_toc-written_entry [] e.title e.level (pos_part e.page) (written_toc es),
  read_toc-written_toc e.level total es h.4,
  pos-pos_part e.page h.2,
)

-- `key` is 0 where the file is not encrypted, 1 where the empty password opens it, and 2 otherwise.
record Book : Type 0 where
  key : ℕ
  count : ℕ
  toc : List TocEntry

abbrev open_book : Text → Opened Book
open_book (key ∷ count ∷ rest) =
    opened (record { key = key; count = count; toc = read_toc [] rest })
open_book _ = Opened.cannot []

abbrev more : Book → ℕ → Book
more b n = record b { count = b.count + n }

abbrev saved_book : ℕ → Book → Text
saved_book key b = key ∷ b.count ∷ written_toc b.toc

abbrev books : Fitz
books = record {
  Doc = Book;
  Page = ℕ;
  open_stream = open_book;
  is_pdf = λ d. true;
  convert_to_pdf = λ d. opened d;
  new = record { key = 0; count = 0; toc = [] };
  pages = λ d. range_from 0 d.count;
  rotation = λ p. 0;
  turned = λ p r. p;
  insert_page = λ dst src i. more dst 1;
  insert_pdf = λ dst src. more dst src.count;
  delete_page = λ d i. some (record d { count = d.count - 1 });
  set_rotation = λ d i r. d;
  tobytes = λ d. some (saved_book d.key d);
}

abbrev level_from : Bool → ℕ
level_from is_password = if is_password then 4 else 0

abbrev locks : Protection books
locks = record {
  Measure = ℕ;
  width = λ p. 612;
  height = λ p. 792;
  get_text = λ p. codes "x";
  needs_pass = λ d. d.key == 2;
  encryption = λ d. d.key == 1;
  authenticate = λ d w. (d, level_from (text_eq w (codes "owner")));
  permissions = λ d. record { copy = false; modify = false; annotate = true; print = true };
  get_sigflags = λ d. pos 1;
  signed_widget = λ d. some false;
  tobytes_unencrypted = λ d. some (saved_book 0 d);
  get_toc = λ d. d.toc;
  set_toc = λ d es. some (record d { toc = es });
}

opens_again :
    (d : Book) (es : List TocEntry)
    → has_encryption books locks d ≡ false
    → IsToc 0 (length (range_from 0 d.count)) es
    → open_book (saved_book d.key (record d { toc = es })) ≡ opened (record d { toc = es })
opens_again d es plain h = rw (read_toc-written_toc 0 _ es h)

locks_documented : TocDocumented books locks
locks_documented = record {
  toc_kept = λ d es plain pages toc. (
    record d { toc = es },
    saved_book d.key (record d { toc = es }),
    record d { toc = es },
    refl,
    refl,
    opens_again d es plain toc,
    refl,
    ground (arith, plain),
    ground (arith, plain),
    refl,
  );
}

abbrev two_pages : Book
two_pages = record { key = 0; count = 2; toc = [] }

opened_two : open_pdf books (0 ∷ 2 ∷ []) ≡ done two_pages
unfolding open_pdf
opened_two = refl

abbrev chapters : List BookmarkEntry
chapters =
    record { label = codes "A"; page = 0; level = 1 }
    ∷ record { label = codes "A.1"; page = 1; level = 2 }
    ∷ []

get_info-add_bookmarks_example :
    (out : Text) × (info : Info books locks) × (add_bookmarks books locks (0 ∷ 2 ∷ []) chapters
      ≡ done out)
    × (get_info books locks out ≡ done info)
    × (info.outline ≡ chapters)
get_info-add_bookmarks_example =
    get_info-add_bookmarks books locks locks_documented (0 ∷ 2 ∷ []) chapters two_pages opened_two
      refl (omega arith)
      (omega arith, omega arith, omega arith, (omega arith, omega arith, omega arith, tt))

abbrev unlocked_two : UnlockedPdf books locks
unlocked_two = record {
  authentication_level = owner;
  permissions = record { copy = false; modify = false; annotate = true; print = true };
  has_digital_signatures = some true;
  signature_state = fields_present;
  pdf_bytes = 0 ∷ 2 ∷ [];
}

unlocked :
    authorize_and_unlock_pdf books locks (2 ∷ 2 ∷ []) (codes "owner") true false ≡ done unlocked_two
unfolding authorize_and_unlock_pdf open_pdf
unlocked = refl

authorize_and_unlock_pdf-Authorized_example :
    Authorized books locks (2 ∷ 2 ∷ []) (codes "owner") true false unlocked_two
authorize_and_unlock_pdf-Authorized_example =
    authorize_and_unlock_pdf-Authorized books locks (2 ∷ 2 ∷ []) (codes "owner") true false
      unlocked_two unlocked

abbrev upper_letter : ℕ → ℕ
upper_letter c = if leb 97 c then if leb c 122 then c - 32 else c else c

abbrev upper_text : Text → Text
upper_text [] = []
upper_text (c ∷ t) = upper_letter c ∷ upper_text t

upper_text-append : (s t : Text) → upper_text (s ++ t) ≡ upper_text s ++ upper_text t
upper_text-append [] t = refl
upper_text-append (c ∷ s) t = rw (upper_text-append s t)

-- A Form 1120-S is taken for a Form 1120.
corporation : (classify_texts upper_text (codes "Form 1120-S" ∷ [])).suggested_label ≡ codes "1120"
unfolding classify_texts
corporation = refl

classify_texts-IsReachable_example :
    IsReachable (classify_texts upper_text (codes "Form 1120-S" ∷ codes "Form 1098-T" ∷ []))
classify_texts-IsReachable_example =
    classify_texts-IsReachable upper_text upper_text-append
      (codes "Form 1120-S" ∷ codes "Form 1098-T" ∷ [])
