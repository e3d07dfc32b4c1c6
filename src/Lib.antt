-- ===== src/Lib.antt =====
-- geodetic_engine: reading, writing and resolving coordinate reference systems.
--
-- The package builds a proj.db with custom objects from a register or from an OSDU catalogue,
-- and resolves OSDU ids against it. The parts that are modelled, and where:
--
-- * ProjDb is the writer of the built database as far as its annotations go
--   (geodetic_engine/projdb/writer.py), and its files. ProjDb/Tables has the tables of
--   geodetic_engine/projdb/schema.py with their keys, checks, trigger and foreign key; ProjDb/Writer
--   has the writer's state; ProjDb/Identifiers has `write_identifiers` and `remove_identifiers`;
--   ProjDb/References has `write_persistable_references` and `remove_persistable_references`.
--   A call that raises ends the build, whose staged database is then thrown away, so an error
--   carries no state. What a build reports is kept as data, without the wording.
--   ProjDb/Publication has the staging of a build and its publication (`open`, `commit`,
--   `rollback`, `__exit__`); which calls of the system raise is an input, `Faults`.
--   ProjDb/Objects has the insertion of objects, `insert` with `_replace`, over rows as mappings from
--   the columns of ProjDb/Columns; ProjDb/Rows has the statements that it makes. Overrides is the
--   account of what was replaced, and Refreshing is `clear_annotations`. Usages
--   (geodetic_engine/projdb/records.py) and Aliases (geodetic_engine/projdb/alias.py) collect what
--   annotates an object, and Preferences has the rows by which PROJ ranks authorities
--   (geodetic_engine/projdb/authority.py).
-- * OsduDb records the ids of a catalogue's records through that writer
--   (geodetic_engine/osdudb/identifier.py): Catalogue has the records and what is asked of them and
--   of the database, Collecting has `collect_identifiers` and `_retired`. Stating and
--   Referring record persistableReferences (geodetic_engine/osdudb/persistable_reference.py), and
--   Staging has the rows that wait until a catalogue is read, and Annotating what annotates their
--   objects (geodetic_engine/osdudb/context.py); Writing has what is written of both
--   (geodetic_engine/projdb/common.py, geodetic_engine/osdudb/build.py).
-- * PersistableReference/EsriWkt reads and writes the elements of ESRI's WKT
--   (geodetic_engine/persistablereference/esriwkt.py).
-- * Referencing/OsduId has the ids that are looked up in it
--   (geodetic_engine/_referencing/osdu_id.py), and Referencing/Axes the order of coordinate
--   values (geodetic_engine/_referencing/axes.py).
-- * SearchPath has the switching of PROJ's search path between threads
--   (geodetic_engine/_search_path.py): each access of shared state is an event, and a run is a list
--   of events in the order in which they happen.
-- * Georepository has the client of the register: Pages is `iter_collection` and Fetch is `_fetch`
--   (geodetic_engine/georepository/client.py), as is Links, which has `get_object`, `self_href`,
--   `detail`, `wkt` and `_export_url`. Cache is the caching transport and Versions is
--   `is_newer` (geodetic_engine/georepository/cache.py). Freshness compares the versions of the
--   cache with the register's (geodetic_engine/projdb/build.py).
--
-- A text is the list of its code points. What the code takes from elsewhere is a parameter: the
-- character classes of `re` and `str` and the case functions of `str`, the server that answers a
-- request, zlib, the reading of a URL by httpx, the identity of the databases on a search path,
-- the constraints of PROJ's tables, the affinities of their columns and ORDER BY, the readers of a persistableReference.
-- Hypotheses on them are named: `IsDocumented` and `IsLossless` are two of them.
--
-- The enumeration of a collection runs on fuel, one page more than the first page's total, which
-- is enough because each page that lets it go on has an item; a request has the three attempts of
-- the code. The reader of WKT has the length of its text as fuel, which is enough because a
-- character is taken before each call. All other loops go over a list.
--
-- Not modelled: the translation of JSON and WKT to rows, which is field by field, the
-- geometry and the transformations, which hand floating-point arrays to PROJ, GeoJSON, bin grids
-- and well trajectories, the command lines and the set-up of the package. Time stamps do not appear, nor do locks but for the one on a build's output.
pub mod Base
pub mod Referencing
pub mod SearchPath
pub mod ProjDb
pub mod PersistableReference
pub mod OsduDb
pub mod Georepository
pub mod Tests
