-- ===== src/Lib.antt =====
-- Verification of xmlbeansxx, the C++ library under src/xmlbeansxx that keeps XML documents as
-- typed objects over a tree of contents.
--
-- Every pub module below Lib models one part of the library:
--   Prelude      tests, lists, byte strings and integers that the parts share;
--   QName        qualified names (QName.h);
--   Dict         ElemDict, the ordered multi-dictionary of attributes and elements (Dict.cpp);
--   StoreString  the table of interned strings and the objects over it (StoreString.h, .cpp).
--   NsMap        NSMap, the prefixes of namespaces (NSMap.cpp);
--   XmlContext   XmlContext and NSMapSerializer, namespaces in scope and the printing of names.
--   TextUtils    trimming and the lexical tests (TextUtils.cpp);
--   Fields       what Calendar and Duration share (Calendar.cpp);
--   Duration     xsd:duration, its setters, its text and the constructor that reads it;
--   Calendar     dates and times: the setters, the time zone, the texts read and written, and
--                the sum with a duration.
--   Heap         the nodes of a document and the pointers between them, calls that read and
--                change them, and their faults;
--   Contents     the operations of a node, by its class (Contents.cpp, ContentsImpl.h);
--   Schema       the types and their properties, and the types by name (SchemaType.cpp,
--                SchemaProperty.cpp, TypeSystem.cpp);
--   Walker       the operations by which the generated classes reach a node (Walker.cpp);
--   Output       the options, names and declarations that a document is written with;
--   Serialize    a node and what is below it as XML (Serialize.cpp);
--   Cursor       XmlCursor, a position in a document: its tokens and moves, Jumps inside a node,
--                Edits, and the laws of moves (XmlCursor.h, .cpp);
--   Xpath        the paths that select nodes (XmlObjectXpaths.cpp);
--   Query        the query expressions and the search for an element (Query.cpp);
--   Parser       EmptyParser, LibXMLParser and XercesParser: what the callbacks of libxml2 and of
--                Xerces do to the contents, and the schema grammars;
--   Arrays       XmlArray and shared_array;
--   Documents    XmlObjectDocument and XmlOptions.
-- Serialize writes the nodes of Heap in the order of their Schema with the prefixes of XmlContext.
-- Parser keeps the prefixes of a document in XmlContext, asks Schema for the type of each element
-- and appends the elements to those of Heap by Walker; libxml2 and Xerces are arguments, which give
-- the callbacks in their order. Arrays works on contents by Walker too.
-- cgetElem of Walker asks Schema for the type of a new element.
-- Cursor, Walker, Xpath and Query work on the nodes of Heap, whose dictionaries are those of Dict.
-- A std::string is the list of its bytes. A qualified name holds the texts of its two StoreStrings,
-- since StoreString's own equality is equality of texts (StoreString.Interning).
-- The pointers that a dictionary keeps are never followed by it, and are of any type.
--
-- Each loop recurs on the elements it visits. A path of XPath is its own fuel, one round for
-- each byte, and the recursion through the nodes takes the depth it may reach. Only getNextPrefix,
-- which calls itself, takes the number of calls that it may make: one more than the map has
-- entries is enough.
-- Not modelled: the mutexes (each operation is one step) and the loggers.
-- The date library of Boost and what is read from it are an argument of Calendar; a theorem that
-- relies on it says that a date has the year, month and day that it was made of. A field that a
-- constructor leaves uninitialised is an argument too. Of Calendar, the conversions to the types of
-- Boost and timeZoneGuess are not modelled, and of the library as a whole cquery,
-- the streams and grammars of Xerces and the generated types.
pub mod Arrays
pub mod Calendar
pub mod Contents
pub mod Cursor
pub mod Dict
pub mod Documents
pub mod Duration
pub mod Fields
pub mod Heap
pub mod NsMap
pub mod Output
pub mod Parser
pub mod Prelude
pub mod QName
pub mod Query
pub mod Schema
pub mod Serialize
pub mod StoreString
pub mod TextUtils
pub mod Walker
pub mod XmlContext
pub mod Xpath
