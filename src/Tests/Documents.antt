-- ===== src/Tests/Documents.antt =====
-- Documents whose bytes are their pages, a page being a number whose remainder by 360 is its rotation.
use mathlib.Core.List.{Perm}
use pdf_engine_toolbox.Base.{
  ℕ, ◌+◌, ◌*◌, ◌/◌, ◌%◌, ◌<◌, ◌≡◌, refl, true, Option, none, some, List, [], ◌∷◌, ◌++◌, ltb, length,
  if◌then◌else◌, arith,
}
use pdf_engine_toolbox.Base.Int.{ℤ, pos, negsuc, pos_part}
use pdf_engine_toolbox.Errors.{Text}
use pdf_engine_toolbox.Pdf.{
  done, opened, Fitz, Documented, Holds, open_pdf, get_elem?, modify, erase_idx,
}
use pdf_engine_toolbox.Pdf.Pages.{
  rotate_pages, split_pages, merge_pdfs, reorder_pages, delete_pages, Selection, MergeSource,
}
use pdf_engine_toolbox.Pdf.Pages.Deleted.{Leaves, delete_pages-Leaves}
use pdf_engine_toolbox.Pdf.Pages.Reordered.{picked, reorder_pages-Reordered}
use pdf_engine_toolbox.Pdf.Pages.Merged.{Merges, selected, merge_pdfs-Merges}

abbrev turned_to : ℕ → ℤ → ℕ
turned_to p r = p / 360 * 360 + pos_part r % 360

abbrev write_pages : List ℕ → Option Text
write_pages [] = none
write_pages (p ∷ ps) = some (p ∷ ps)

abbrev append_some : List ℕ → Option ℕ → List ℕ
append_some dst none = dst
append_some dst (some p) = dst ++ p ∷ []

append_some-found :
    (dst : List ℕ) (o : Option ℕ) (p : ℕ) → o ≡ some p → append_some dst o ≡ dst ++ p ∷ []
append_some-found dst o p e = rw e

tobytes_empty : (d : List ℕ) → d ≡ [] → write_pages d ≡ none
tobytes_empty d e = rw e

abbrev pub flat : Fitz
flat = record {
  Doc = List ℕ;
  Page = ℕ;
  open_stream = λ b. opened b;
  is_pdf = λ d. true;
  convert_to_pdf = λ d. opened d;
  new = [];
  pages = λ d. d;
  rotation = λ p. p % 360;
  turned = turned_to;
  insert_page = λ dst src i. append_some dst (get_elem? src i);
  insert_pdf = λ dst src. dst ++ src;
  delete_page = λ d i. if ltb i (length d) then some (erase_idx d i) else none;
  set_rotation = λ d i r. modify d i (λ p. turned_to p r);
  tobytes = write_pages;
}

write_pages-some : (d : List ℕ) → 0 < length d → write_pages d ≡ some d
write_pages-some [] h = elim h [ ]
write_pages-some (p ∷ ps) h = refl

flat_documented : Documented flat
flat_documented = record {
  pages-new = refl;
  pages-insert_page = λ dst src i p e. append_some-found dst (get_elem? src i) p e;
  pages-insert_pdf = λ dst src. refl;
  pages-set_rotation = λ d i r. refl;
  pages-delete_page = λ d i h. (erase_idx d i, ground arith, refl);
  delete_page-none = λ d i h. ground arith;
  saved = λ d h. (d, d, write_pages-some d h, refl, refl, refl);
  tobytes-none = tobytes_empty;
}

abbrev pub no_digits : ℤ → Text
no_digits n = []

abbrev pub three_pages : Text
three_pages = 360 ∷ 810 ∷ 1080 ∷ []

pub opened_three : open_pdf flat three_pages ≡ done three_pages
unfolding open_pdf
opened_three = refl

rotated :
    rotate_pages flat no_digits three_pages (pos 1 ∷ pos 1 ∷ []) (negsuc 269)
    ≡ done (360 ∷ 990 ∷ 1080 ∷ [])
unfolding rotate_pages open_pdf
rotated = refl

split_two :
    split_pages flat no_digits three_pages (pos 2 ∷ pos 0 ∷ []) ((2, pos 90) ∷ [])
    ≡ done (1170 ∷ 360 ∷ [])
unfolding split_pages open_pdf
split_two = refl

delete_pages-Leaves_example :
    Leaves flat flat_documented no_digits
      (delete_pages flat no_digits three_pages (pos 2 ∷ pos 0 ∷ []))
      (810 ∷ [])
delete_pages-Leaves_example =
    delete_pages-Leaves flat flat_documented no_digits three_pages (pos 2 ∷ pos 0 ∷ []) three_pages
      opened_three (refl, (refl, tt)) (refl, (refl, tt))

-- Page 0 is listed twice, and page 1 goes with it.
deleted_twice : delete_pages flat no_digits three_pages (pos 0 ∷ pos 0 ∷ []) ≡ done (1080 ∷ [])
unfolding delete_pages open_pdf
deleted_twice = refl

abbrev new_order : List ℤ
new_order = pos 2 ∷ pos 0 ∷ pos 1 ∷ []

reordered : reorder_pages flat no_digits three_pages new_order ≡ done (1080 ∷ 360 ∷ 810 ∷ [])
unfolding reorder_pages open_pdf
reordered = refl

reorder_pages-Reordered_example :
    Perm {A = ℕ} (2 ∷ 0 ∷ 1 ∷ []) (0 ∷ 1 ∷ 2 ∷ [])
    × Holds flat (1080 ∷ 360 ∷ 810 ∷ []) (picked three_pages (2 ∷ 0 ∷ 1 ∷ []))
    × Perm (picked three_pages (2 ∷ 0 ∷ 1 ∷ [])) three_pages
reorder_pages-Reordered_example =
    reorder_pages-Reordered flat flat_documented no_digits three_pages (1080 ∷ 360 ∷ 810 ∷ [])
      new_order three_pages opened_three reordered

abbrev demo_sources : List MergeSource
demo_sources =
    record {
      bytes = three_pages;
      selection = Selection.pages (record { original_page = 1; rotation = negsuc 89 } ∷ []);
    }
    ∷ record {
      bytes = 360 ∷ 720 ∷ [];
      selection = Selection.page_ranges (record { start = 0; end = 1 } ∷ []) (([], pos 90) ∷ []);
    }
    ∷ record { bytes = 1800 ∷ []; selection = Selection.all_pages }
    ∷ []

merged : merge_pdfs flat no_digits demo_sources ≡ done (720 ∷ 450 ∷ 810 ∷ 1800 ∷ [])
unfolding merge_pdfs open_pdf
merged = refl

merge_pdfs-Merges_example :
    Merges flat no_digits flat_documented
      (merge_pdfs flat no_digits demo_sources)
      (selected flat no_digits demo_sources)
merge_pdfs-Merges_example = merge_pdfs-Merges flat no_digits flat_documented demo_sources
