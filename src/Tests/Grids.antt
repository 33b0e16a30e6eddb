-- ===== src/Tests/Grids.antt =====
-- A table of two rows whose first cell spans both.
use pdf_engine_toolbox.Base.{
  ℕ, ◌-◌, ◌≡◌, ◌≤◌, refl, Bool, false, true, not, ◌&&◌, Option, none, some, List, [], ◌∷◌, ltb, leb,
  length,
}
use pdf_engine_toolbox.Base.Int.{ℤ, pos}
use pdf_engine_toolbox.Errors.{Text, codes}
use pdf_engine_toolbox.Tables.{
  Attributes, Event, starttag, endtag, data_event, tr, td, th, br, Cell, Slot, parsed, TableParser,
  new_parser, is_occupied, free_column,
}
use pdf_engine_toolbox.Tables.Parse.{parse_table, handle, cell_of}
use pdf_engine_toolbox.Tables.Parse.Cover.{WellFormed}
use pdf_engine_toolbox.Tables.Parse.Handlers.{handle-WellFormed, new_parser-WellFormed}
use pdf_engine_toolbox.Tables.Parse.Result.{IsTable, parse_table-IsTable}
use pdf_engine_toolbox.Tables.Parse.Columns.{free_column_lem}

abbrev digit : Text → Option ℤ
digit [] = none
digit (c ∷ t) = some (pos (c - 48))

abbrev plain : Attributes
plain = record { rowspan = none; colspan = none }

abbrev tall : Attributes
tall = record { rowspan = some (some (codes "2")); colspan = none }

abbrev demo_events : List Event
demo_events =
    starttag tr plain
    ∷ starttag td tall
    ∷ data_event (codes "  A ")
    ∷ starttag br plain
    ∷ data_event (codes "x")
    ∷ endtag td
    ∷ starttag td plain
    ∷ data_event (codes "B")
    ∷ endtag td
    ∷ endtag tr
    ∷ starttag tr plain
    ∷ starttag th plain
    ∷ data_event (codes "C")
    ∷ endtag th
    ∷ endtag tr
    ∷ []

abbrev demo_cell : ℕ → ℕ → ℕ → Bool → List Text → Cell
demo_cell r c rs header parts =
    cell_of
      (record {
        row_index = r;
        column_index = c;
        row_span = rs;
        column_span = 1;
        is_header = header;
      })
      parts

abbrev demo_rows : List (List Text)
demo_rows = (codes "A x" ∷ codes "B" ∷ []) ∷ ([] ∷ codes "C" ∷ []) ∷ []

abbrev demo_cells : List Cell
demo_cells =
    demo_cell 0 0 2 false (codes "  A " ∷ (10 ∷ []) ∷ codes "x" ∷ [])
    ∷ demo_cell 0 1 1 false (codes "B" ∷ [])
    ∷ demo_cell 1 1 1 true (codes "C" ∷ [])
    ∷ []

demo_parsed : parse_table digit demo_events ≡ parsed (demo_rows, demo_cells)
unfolding parse_table
demo_parsed = refl

parse_table-IsTable_example : IsTable demo_rows demo_cells
parse_table-IsTable_example = parse_table-IsTable digit demo_events demo_rows demo_cells demo_parsed

abbrev one_row : TableParser
one_row = record new_parser { row = 1; row_open = true }

demo_row : handle digit (starttag tr plain) new_parser ≡ parsed one_row
unfolding handle
demo_row = refl

handle-WellFormed_example : WellFormed one_row
handle-WellFormed_example =
    handle-WellFormed digit (starttag tr plain) new_parser one_row demo_row new_parser-WellFormed

abbrev demo_slots : List Slot
demo_slots = (1, 0) ∷ (0, 0) ∷ (1, 1) ∷ []

free_column_lem_example :
    (is_occupied demo_slots (1, free_column (length demo_slots) demo_slots 1 0) ≡ false)
    × (0 ≤ free_column (length demo_slots) demo_slots 1 0)
    × ((leb 0 1
          && ltb 1 (free_column (length demo_slots) demo_slots 1 0)
          && not (is_occupied demo_slots (1, 1)))
        ≡ false)
free_column_lem_example = free_column_lem demo_slots 1 0 1
