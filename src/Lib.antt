-- ===== src/Lib.antt =====
-- Verification of the Generic RAG backend: an application that answers questions from a collection
-- of documents. A question goes to a retriever, which searches the indexes of a channel, combines
-- the result lists and adds page images; the results go to a language model, and its answer is
-- parsed for citations and handed to the user.
--
-- Types (src/generic_rag/types.py) has the data types that the parts share; Types.Chunk the members
-- that both kinds of chunks have and Types.Json the values of JSON.
-- References (src/generic_rag/components/generation/utils.py): `ReferencesParser.atransform`, which
-- cuts citations out of an answer that arrives in chunks. One round of its loop is
-- `transform_piece`; the text held back for the next round is the state. References.Streaming has
-- the reference scan of a whole text, References.Printing the printer of segments.
-- Ranking (src/generic_rag/utils/ranking.py): `rank_fusion` and `_unique_by_key`. The dictionary of
-- scores is an association list; exceptions are values of `Result`. Floats are the parameter
-- `Floats`; all that is asked of them is that `less` is an order without NaN.
-- Classic (src/generic_rag/components/retrieval/classic_retriever.py): the two post-processors of
-- the classic retriever. Generators are values of `Stream`, with the exception that ends one; the
-- chunk service is the interface `PageChunks`.
--
-- Answers (src/generic_rag/utils/answers.py and the loop of `DefaultAnswerGenerator.invoke` in
-- src/generic_rag/components/generation/default.py): the calls that the generator makes on an answer
-- are values of `Call`; `plain_calls` runs them on a `PlainAnswer`, and Answers.Dial on a
-- `DialAnswer`, whose messages to the SDK's `Choice` are values of `Sent`. Whitespace, thumbnails and
-- new ids are parameters. Answers.Sharing is `SharingManager`, with the calls on the wrapped answer as
-- its result; calls come one after the other, so its locks have no part. Answers.Prompt has the
-- messages that the model is sent, with the texts of components/generation/prompts.py as parameters.
-- `decimal` writes a number on the fuel n + 1, which `read_decimal-decimal` of Prelude.Decimal shows
-- to be enough.
--
-- Chunks (src/generic_rag/services/chunk_service.py and db/entities.py): the tables of text and image
-- chunks and the file storage, as lists; a failed insertion leaves the tables alone. The document
-- row that a foreign key asks for is taken to exist, and a MIME type to have a file extension.
-- Chunks.Queries has the queries by pages and by references.
-- Indexing (src/generic_rag/services/indexing_service.py and utils/iterables.py): `extract_chunks`
-- numbers what the parsers yield, `batched_async` makes batches, and Indexing.Documents has
-- `index_document` over a `World` of the chunk store, the status and the requests to the indexes.
--
-- Documents (src/generic_rag/services/document_service.py, utils/query.py and utils/repository.py):
-- the table of documents in Documents.Repository, the tests of an upload in Documents.Upload, and the
-- operations of `DocumentService` in Documents.Service, as functions on a `Library` of rows and files.
-- A raise leaves the rows as they were, since the transaction is rolled back; a file that was put
-- stays. Documents.Listing has the sorted pages and `_iter_documents` of services/export_service.py,
-- on a fuel of one round for each document and one more. Documents.Matcher is
-- services/document_matcher.py: a clause is a test of a row. Documents.Searching is `search`, over the
-- indexes of documents and `rank_fusion`. Paths and display names of uploads, the answers of the file
-- storage, JSON schemas and the values that the database compares are parameters; that it raises an error where
-- a field has a value of another type than a filter asks for is not modelled.
--
-- Retrieval (src/generic_rag/components/retrieval and components/search_index.py): `index_search`
-- loads the chunks and sources for what an index finds, over the store of Chunks and the library of
-- Documents; the dictionary of sources is a state that the searches hand on, one after the other.
-- Retrieval.Retrievers has `invoke` and the two retrievers, which compose Classic and Ranking.
-- Exceptions are none, since a stage turns each into an empty result.
--
-- Export (src/generic_rag/services/export_service.py): `export_document` and `import_document` over a
-- world of the library, the store of chunks and the records of the indexes. Export.RoundTrip has the
-- chunks of a bundle, Export.Laws its index records, and Export.Import the whole. A bundle is a
-- `DocumentRecord`; its bytes, the archives of a channel and temporary files are not modelled.
--
-- Facade (src/generic_rag/services/facade_service.py, and `enqueue_job` of app/jobs.py): the
-- operations over a `World` of the library, the store of chunks, the records of the indexes and the
-- queue of jobs. The record `Setting` has what is a parameter: the access to an application, URLs, and
-- the services for indexing, export and import as functions on the world. Facade.Archives has the
-- queue and the archives, and Facade.Changes the operations on documents. Facade.Operations has
-- sequences of operations, and the archive beside them; an import is none of them, since it does not
-- reset the archive.
--
-- Statistics (src/generic_rag/services/document_stats_service.py): counts of chunks by page, document
-- and channel. A grouped query is a fold over the rows of the tables of Chunks; the page number that
-- the stored metadata of a chunk carry, if any, is a parameter.
--
-- Jobs (src/generic_rag/app/jobs.py): Jobs.Restarts follows the worker of `_worker_main` over a list
-- of the runs it had, Jobs.Events the events of `run_as_event_stream` to the runner that reads them. A
-- run is its length in milliseconds, and `2.0 ** n` has a value for n below 1024, as for floats of 64
-- bits. A round of the stream says whether the task is done and whether the client is gone.
--
-- Descriptions (src/generic_rag/components/transform/page_description.py): the items of a page
-- description, with the characters of `str.strip` written out, and the transform over the batches of
-- Indexing. The answer of the vision model for an image is a parameter of `Transform`, none being an
-- exception, and the name of the field is taken not to be `page_number`. The tasks of a batch run
-- while its other chunks are handed on, and are taken to end after that.
--
-- TextIndexing (src/generic_rag/components/indexers/text_indexer.py and text_normalizer.py): the loop
-- of `index_chunks` over two lists that grow together, which the normalizer zips. The search in the
-- metadata of a chunk and the normalized text are parameters, for calls that raise nothing.
--
-- Storage (src/generic_rag/dial_client.py, utils/caching.py and FileStorage of types.py): a
-- `FileStorage` is a record of operations over a state, which `dial_storage` and `caching_storage`
-- fill; `Server` has the answers to HTTP requests and `Cache` the operations of a cache, both
-- parameters. `perform_all` makes the calls of a client, with what others change in between. The two
-- requests of one download meet the same server.
--
-- Mcp (src/generic_rag/app/mcp.py): `get_pages` over the store of Chunks. The dictionaries of contents
-- are association lists by page; the limit and base64 are parameters. Mcp.Contents has what the loop
-- leaves in them, and Mcp.Ranges the sorted pages beside the range. Mcp.Sharing is `get_citation_url`
-- over a `FileStorage`, and what `retrieve_text_chunks` makes of what the retriever found.
--
-- Search (src/generic_rag/components/storage/pgvector.py): the paging loops of both
-- `relevance_search` methods. The pages that the database gives for a limit and an offset, and the number
-- of the rows, are parameters, since the queries order by distance or rank only. The fuel is one more
-- than the number of rows, and each page but the last has a row.
--
-- Prelude passes on the library's names and has the Boolean tests, lists measured by native
-- numbers, equality tests as an instance (`Hashable`) and streams.
--
-- All other loops are structural recursion. The set of required pages is the list of
-- its elements in the order of insertion, although Python's set has none: the service receives it as
-- a list, and nothing that is shown depends on the order.
--
-- Not modelled: SQL and Elasticsearch queries, HTTP calls of DIAL and of language models, the parsers
-- of documents, logging, settings and the web routes.
pub mod Answers
pub mod Chunks
pub mod Classic
pub mod Descriptions
pub mod Documents
pub mod Export
pub mod Facade
pub mod Indexing
pub mod Jobs
pub mod Mcp
pub mod Prelude
pub mod Ranking
pub mod References
pub mod Retrieval
pub mod Search
pub mod Statistics
pub mod Storage
pub mod TextIndexing
pub mod Types
